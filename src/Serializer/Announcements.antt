-- ===== src/Serializer/Announcements.antt =====
-- What a client reads of the texts that SerializeGameplayMessage.cpp makes.
use samurai_kirby_server.Prelude.{
  ℕ, String, Option, none, some, false, int_modulus, List, ◌≡◌, ◌<◌, arith, refl, ◌∙◌,
}
use samurai_kirby_server.Player.{
  PlayerAssignment, p1, p2, GameplayInput, input_value, PlayerLobbyDto, PlayerGameResultDto,
}
use samurai_kirby_server.Messages.{
  GameResultDto, GameplayMessage, gameplay_message_type, room_joined, player_joined_room,
  player_left_room, player_ready_state_changed, all_ready_game_starting, game_expecting_input,
  game_over_early_input, game_over_wrong_input, game_over_win, game_over_draw,
  player_replay_ready_state_changed, all_replay_ready_game_starting,
}
use samurai_kirby_server.Json.{JsonLibrary, IsLawful}
use samurai_kirby_server.Serializer.{
  done, assignment_value, enumerator, optional, lobby_json, player_result_json,
  serialize_game_result, fields, message_json, serialize_gameplay_message,
}
use samurai_kirby_server.Serializer.Contract.{
  input_value-bound, read_enumerator-value, IsWireInput, IsWirePlayer, IsWireResult, IsWireMessage,
  read_assignment, read_input, read_optional, member_of, read_lobby, read_player_result,
  read_result, read_as, read_gameplay_message, typed,
}

message_type-bound : (m : GameplayMessage) → gameplay_message_type m < int_modulus
unfolding gameplay_message_type
message_type-bound m = ground arith

module _ (L : JsonLibrary) (laws : IsLawful L) where
  read_assignment-enumerator :
      (a : PlayerAssignment) → read_assignment L (enumerator L (assignment_value a)) ≡ some a
  unfolding read_assignment
  read_assignment-enumerator p1 = simp (laws.get_enum-number 0 (ground arith))
  read_assignment-enumerator p2 = simp (laws.get_enum-number 1 (ground arith))

  read_input-enumerator :
      (i : GameplayInput) → IsWireInput i → read_input L (enumerator L (input_value i)) ≡ some i
  unfolding read_input
  read_input-enumerator i wire =
      simp (laws.get_enum-number _ (input_value-bound i wire), read_enumerator-value i wire)

  read_optional-optional :
      {A : Type 0} (read : L.Json → Option A) (f : A → L.Json) (o : Option A)
      → ((a : A) → L.is_null (f a) ≡ false)
      → ((a : A) → o ≡ some a → read (f a) ≡ some a)
      → read_optional L read (optional L f o) ≡ some o
  unfolding read_optional
  read_optional-optional read f none not_null reads = simp (laws.is_null-null)
  read_optional-optional read f (some a) not_null reads = simp (not_null a, reads a refl)

  read_lobby-lobby_json : (p : PlayerLobbyDto) → read_lobby L (lobby_json L p) ≡ some p
  unfolding read_lobby member_of
  read_lobby-lobby_json p =
      simp
        (laws.at-object, laws.get_text-text, laws.get_boolean-boolean, read_assignment-enumerator)

  read_player_result-json :
      (p : PlayerGameResultDto)
      → IsWirePlayer p
      → read_player_result L (player_result_json L p) ≡ some p
  unfolding read_player_result member_of IsWirePlayer
  read_player_result-json p (inputs, times) = simp (
    laws.at-object,
    read_assignment-enumerator,
    read_optional-optional (read_input L) (λ i. enumerator L (input_value i)) p.input_pressed
        (λ _. laws.is_null-number _) (λ i e. read_input-enumerator i (inputs i e)),
    read_optional-optional L.get_int L.number p.time_to_press (λ _. laws.is_null-number _)
        (λ z e. laws.get_int-number z (times z e)),
  )

  read_result-serialize :
      (r : GameResultDto) → IsWireResult r → read_result L (serialize_game_result L r) ≡ some r
  unfolding read_result member_of serialize_game_result IsWireResult
  read_result-serialize r (first, second) = simp (
    laws.at-object,
    read_optional-optional (read_assignment L) (λ a. enumerator L (assignment_value a))
        r.winning_player (λ _. laws.is_null-number _) (λ a _. read_assignment-enumerator a),
    read_player_result-json r.player1 first,
    read_player_result-json r.player2 second,
  )

  read_as-fields :
      (m : GameplayMessage)
      → IsWireMessage m
      → read_as L (gameplay_message_type m) (typed L (gameplay_message_type m) (fields L m))
        ≡ some m
  unfolding read_as member_of gameplay_message_type fields IsWireMessage
  read_as-fields (room_joined a o) w = simp (
    laws.at-object,
    read_assignment-enumerator,
    read_optional-optional (read_lobby L) (lobby_json L) o (λ _. laws.is_null-object _)
        (λ p _. read_lobby-lobby_json p),
  )
  read_as-fields (player_joined_room p) w = simp (laws.at-object, read_lobby-lobby_json)
  read_as-fields (player_left_room a) w = simp (laws.at-object, read_assignment-enumerator)
  read_as-fields (player_ready_state_changed a b) w =
      simp (laws.at-object, read_assignment-enumerator, laws.get_boolean-boolean)
  read_as-fields all_ready_game_starting w = refl
  read_as-fields (game_expecting_input i) w = simp (laws.at-object, read_input-enumerator i w)
  read_as-fields (game_over_early_input r) w = simp (laws.at-object, read_result-serialize r w)
  read_as-fields (game_over_wrong_input r) w = simp (laws.at-object, read_result-serialize r w)
  read_as-fields (game_over_win r) w = simp (laws.at-object, read_result-serialize r w)
  read_as-fields (game_over_draw r) w = simp (laws.at-object, read_result-serialize r w)
  read_as-fields (player_replay_ready_state_changed a b) w =
      simp (laws.at-object, read_assignment-enumerator, laws.get_boolean-boolean)
  read_as-fields all_replay_ready_game_starting w = refl

  read_gameplay_message-typed :
      (t : L.Text) (n : ℕ) (ms : List (String × L.Json))
      → n < int_modulus
      → L.dump (typed L n ms) ≡ some t
      → read_gameplay_message L t ≡ read_as L n (typed L n ms)
  unfolding read_gameplay_message member_of
  read_gameplay_message-typed t n ms bound dumped =
      simp (laws.parse-dump (typed L n ms) t dumped, laws.at-object, laws.get_enum-number n bound)

  -- If the library can dump a message's document, the inputs of the message are enumerators or other
  -- numbers of 32 bits, and its times fit in 32 bits, then the message is serialized to that text, and a client reads the same message from it.
  pub serialize-Reads :
      (m : GameplayMessage) (t : L.Text)
      → IsWireMessage m
      → L.dump (message_json L m) ≡ some t
      → (serialize_gameplay_message L m ≡ done t) × (read_gameplay_message L t ≡ some m)
  unfolding serialize_gameplay_message
  serialize-Reads m t wire dumped = (
    simp (dumped),
    read_gameplay_message-typed t (gameplay_message_type m) (fields L m) (message_type-bound m)
          dumped
        ∙ read_as-fields m wire,
  )
