-- ===== src/Serializer/Actions.antt =====
-- What deserializePlayerActionMessage.cpp makes of the documents that clients send.
use samurai_kirby_server.Prelude.{
  ℕ, String, Option, none, some, Bool, true, false, refl, ap, ◌∙◌, int_modulus, List, ◌≡◌, ◌<◌, ◌↔◌,
  ltb, arith,
}
use samurai_kirby_server.Player.{GameplayInput, GameDifficulty, input_value, difficulty_value}
use samurai_kirby_server.Messages.{
  PlayerActionMessage, player_action_message_type, join_game, set_ready_state, notify_can_play,
  player_input, set_replay_ready_state, leave_game,
}
use samurai_kirby_server.Json.{JsonLibrary, IsLawful}
use samurai_kirby_server.Serializer.{
  to_input, to_difficulty, done, json_exception, not_handled, catch_json, ◌>>=◌, deserialize_as,
  deserialize_player_action_message,
}
use samurai_kirby_server.Serializer.Contract.{
  input_value-bound, difficulty_value-bound, IsWireAction, IsWireDifficulty, IsWireInput, typed,
  action_members, action_json,
}

-- The `messageType` of a text.
unfoldable pub type_of : (L : JsonLibrary) → L.Text → Option ℕ
type_of L t = do j ← L.parse t; type_json ← L.at "messageType" j; L.get_enum type_json

-- A number that none of the six types has.
abbrev pub is_past : Option ℕ → Bool
is_past none = false
is_past (some n) = ltb 5 n

action_type-bound : (m : PlayerActionMessage) → player_action_message_type m < int_modulus
unfolding player_action_message_type
action_type-bound m = ground arith

-- The casts of deserialize give back the value whose number was sent.
to_input-value : (i : GameplayInput) → IsWireInput i → to_input (input_value i) ≡ i
unfolding to_input IsWireInput
to_input-value i wire = ground arith

to_difficulty-value :
    (d : GameDifficulty) → IsWireDifficulty d → to_difficulty (difficulty_value d) ≡ d
unfolding to_difficulty IsWireDifficulty
to_difficulty-value d wire = ground arith

module _ (L : JsonLibrary) (laws : IsLawful L) where
  deserialize-typed :
      (t : L.Text) (n : ℕ) (ms : List (String × L.Json))
      → n < int_modulus
      → L.dump (typed L n ms) ≡ some t
      → deserialize_player_action_message L t ≡ catch_json (deserialize_as L n (typed L n ms))
  unfolding deserialize_player_action_message
  deserialize-typed t n ms bound dumped =
      simp (laws.parse-dump (typed L n ms) t dumped, laws.at-object, laws.get_enum-number n bound)

  deserialize_as-action_json :
      (m : PlayerActionMessage)
      → IsWireAction m
      → deserialize_as L (player_action_message_type m) (action_json L m) ≡ some (done m)
  unfolding deserialize_as player_action_message_type IsWireAction
  deserialize_as-action_json (join_game nickname difficulty) wire = simp (
    laws.at-object,
    laws.get_text-text,
    laws.get_enum-number _ (difficulty_value-bound difficulty wire),
    to_difficulty-value difficulty wire,
  )
  deserialize_as-action_json (player_input input time) (wire, fits) = simp (
    laws.at-object,
    laws.get_int-number _ fits,
    laws.get_enum-number _ (input_value-bound input wire),
    to_input-value input wire,
  )
  deserialize_as-action_json (set_ready_state is_ready) w =
      simp (laws.at-object, laws.get_boolean-boolean)
  deserialize_as-action_json notify_can_play w = refl
  deserialize_as-action_json (set_replay_ready_state is_ready_to_replay) w =
      simp (laws.at-object, laws.get_boolean-boolean)
  deserialize_as-action_json leave_game w = refl

  -- A text that a client dumped of an action is read as that action, if the action's enumeration is an
  -- enumerator or another number of 32 bits, and its time fits in 32 bits.
  pub deserialize-action_json :
      (m : PlayerActionMessage) (t : L.Text)
      → IsWireAction m
      → L.dump (action_json L m) ≡ some t
      → deserialize_player_action_message L t ≡ done m
  deserialize-action_json m t wire dumped =
      deserialize-typed t (player_action_message_type m) (action_members L m) (action_type-bound m)
        dumped
      ∙ ap catch_json (deserialize_as-action_json m wire)

module _ (L : JsonLibrary) where
  -- However a text is read: without a number for its `messageType` it throws the exception of the
  -- library; it is unhandled just if that number is past the six types; and if it is read as an
  -- action, the number is the type of that action.
  pub deserialize-Classifies :
      (t : L.Text)
      → (type_of L t ≡ none → deserialize_player_action_message L t ≡ json_exception)
        × ((deserialize_player_action_message L t ≡ not_handled) ↔ (is_past (type_of L t) ≡ true))
        × ((m : PlayerActionMessage)
            → deserialize_player_action_message L t ≡ done m
            → type_of L t ≡ some (player_action_message_type m))
  unfolding deserialize_player_action_message deserialize_as type_of player_action_message_type
  deserialize-Classifies t =
      ((λ h. ground arith), ((λ h. ground arith), (λ h. ground arith)), λ m h. ground arith)
