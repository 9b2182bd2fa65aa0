-- ===== src/Gameplay/Calls.antt =====
-- What every callback of the gameplay keeps: the rooms are valid, and the hub's input and the keys of
-- the map of callbacks are as they were.
use samurai_kirby_server.Prelude.{
  ℕ, String, ◌≡◌, refl, ap, ◌∙◌, none, some, inl, inr, Bool, true, false, Option-cases, Bool-cases,
  arith, List, [], ◌∷◌, All-append, ◌==◌,
}
use samurai_kirby_server.Prelude.UnorderedMap.{among}
use samurai_kirby_server.Exec.{
  Exec, Result, ok, err, undefined_behaviour, runtime_error, bad_optional_access, bad_function_call,
  serialize_exception, continue,
}
use samurai_kirby_server.Player.{GameDifficulty}
use samurai_kirby_server.Messages.{PlayerActionMessage, join_game, leave_game}
use samurai_kirby_server.Environment.{
  Subscription, PlayerActionCallback, manager_callback, room_callback,
}
use samurai_kirby_server.Room.State.{new_room}
use samurai_kirby_server.Room.Queries.{is_empty, has_player_with_id}
use samurai_kirby_server.Room.Membership.{remove_player}
use samurai_kirby_server.Room.Actions
use samurai_kirby_server.Room.Validity.{IsValid}
use samurai_kirby_server.Room.Safety.{
  new_room-IsValid, add_player-Succeeds, remove_player-Succeeds, handle_player_message-Succeeds,
}
use samurai_kirby_server.Room.Input.{
  input_of, add_player-input, remove_player-input, handle_player_message-input,
}
use samurai_kirby_server.Room.Listening.{
  SameKeys, add_player-SameKeys, remove_player-SameKeys, handle_player_message-SameKeys,
}
use samurai_kirby_server.Room.Callbacks.{
  IsStill, add_player-IsStill, remove_player-IsStill, handle_player_message-IsStill,
}
use samurai_kirby_server.RoomManager
use samurai_kirby_server.RoomManager.{
  Lobby, Place, find_if, is_open_for, add_player_to_room, remove_player_from_room, tick_rooms,
  tick_all_rooms,
}
use samurai_kirby_server.RoomManager.Places.{find_if-IsFirst}
use samurai_kirby_server.RoomManager.Outcomes.{
  at_place, opened, replaced, add_player_to_room-none, add_player_to_room-some,
  remove_player_from_room-none, remove_player_from_room-some,
}
use samurai_kirby_server.RoomManager.Validity.{
  AreValid, AreValid-replace, AreValid-drop, found-IsValid,
}
use samurai_kirby_server.Gameplay.{call, call_all, caught, try}

-- The callback of a room that was destroyed is the only thing that goes wrong.
abbrev pub is_sound : Result (Unit {0}) → Bool
is_sound (ok a) = true
is_sound (err undefined_behaviour) = true
is_sound (err bad_optional_access) = false
is_sound (err bad_function_call) = false
is_sound (err runtime_error) = false
is_sound (err serialize_exception) = false

-- The end of a call for the player `id` that was made in the lobby `l`.
pub record Keeps (id : ℕ) (l : Lobby) (o : Result (Unit {0}) × Lobby) : Type 0 where
  pub sound : is_sound o.0 ≡ true
  pub valid : AreValid o.1.rooms
  pub input : input_of o.1.env ≡ input_of l.env
  pub same_keys : SameKeys id l.env o.1.env
  pub still : IsStill l.env o.1.env

pub add_player_to_room-Keeps :
    (id : ℕ) (nickname : String) (d : GameDifficulty) (l : Lobby)
    → AreValid l.rooms
    → Keeps id l (add_player_to_room id nickname d l)
unfolding new_room
add_player_to_room-Keeps id nickname d l a = elim (Option-cases (find_if (is_open_for d) l.rooms)) [
  | inl e ↦
      let w = opened d l in
      rw (add_player_to_room-none id nickname d l e) (record {
        sound = refl;
        valid =
            All-append IsValid l.rooms _ a
              ((add_player-Succeeds id nickname w (new_room-IsValid _ _)).valid, tt);
        input = add_player-input id nickname w;
        same_keys = add_player-SameKeys id nickname w;
        still = add_player-IsStill id nickname w;
      })
  | inr (p, e) ↦
      let split = (find_if-IsFirst _ l.rooms p e).split in
      let here = found-IsValid p l.rooms split a in
      rw (add_player_to_room-some id nickname d l p e here) (record {
        sound = refl;
        valid =
            AreValid-replace p l.rooms _ split a
              (add_player-Succeeds id nickname (at_place p l) here).valid;
        input = add_player-input id nickname (at_place p l);
        same_keys = add_player-SameKeys id nickname (at_place p l);
        still = add_player-IsStill id nickname (at_place p l);
      })
]

pub remove_player_from_room-Keeps :
    (id : ℕ) (l : Lobby) → AreValid l.rooms → Keeps id l (remove_player_from_room id l)
remove_player_from_room-Keeps id l a =
    elim (Option-cases (find_if (has_player_with_id id) l.rooms)) [
      | inl e ↦ rw (remove_player_from_room-none id l e) (record {
        sound = refl;
        valid = a;
        input = refl;
        same_keys = λ _. refl;
        still = λ _ _ k. k;
      })
      | inr (p, e) ↦
          let split = (find_if-IsFirst _ l.rooms p e).split in
          let here = found-IsValid p l.rooms split a in
          let left = (remove_player id (at_place p l)).1 in
          rw (remove_player_from_room-some id l p e here) (elim (Bool-cases (is_empty left.room)) [
            | inl gone ↦ rw gone (record {
              sound = refl;
              valid = AreValid-drop p l.rooms split a;
              input = remove_player-input id (at_place p l);
              same_keys = remove_player-SameKeys id (at_place p l);
              still = remove_player-IsStill id (at_place p l);
            })
            | inr stays ↦ rw stays (record {
              sound = refl;
              valid =
                  AreValid-replace p l.rooms _ split a
                    (remove_player-Succeeds id (at_place p l) here).valid;
              input = remove_player-input id (at_place p l);
              same_keys = remove_player-SameKeys id (at_place p l);
              still = remove_player-IsStill id (at_place p l);
            })
          ])
    ]

pub remove_player_from_room_returns :
    (id : ℕ) (l : Lobby) → AreValid l.rooms → (remove_player_from_room id l).0 ≡ ok tt
remove_player_from_room_returns id l a =
    elim (Option-cases (find_if (has_player_with_id id) l.rooms)) [
      | inl e ↦ rw (remove_player_from_room-none id l e) refl
      | inr (p, e) ↦
          let split = (find_if-IsFirst _ l.rooms p e).split in
          rw (remove_player_from_room-some id l p e (found-IsValid p l.rooms split a)) refl
    ]

pub manager-Keeps :
    (id : ℕ) (m : PlayerActionMessage) (l : Lobby)
    → AreValid l.rooms
    → Keeps id l (RoomManager.handle_player_message id m l)
unfolding RoomManager.handle_player_message
manager-Keeps id (join_game nickname d) l a = add_player_to_room-Keeps id nickname d l a
manager-Keeps id leave_game l a = remove_player_from_room-Keeps id l a
manager-Keeps id _ l a = record {
  sound = refl;
  valid = a;
  input = refl;
  same_keys = λ _. refl;
  still = λ _ _ k. k;
}

module _ (address id : ℕ) (m : PlayerActionMessage) (l : Lobby) where
  pub call_room-none :
      find_if (λ r. r.address == address) l.rooms ≡ none
      → call (room_callback address) id m l ≡ (err undefined_behaviour, l)
  unfolding call
  call_room-none e = ground arith

  pub call_room-some :
      (p : Place)
      → find_if (λ r. r.address == address) l.rooms ≡ some p
      → IsValid p.room
      → call (room_callback address) id m l
        ≡ (ok tt, replaced p (Actions.handle_player_message id m (at_place p l)).1 l)
  unfolding call
  call_room-some p e v = ground (arith, handle_player_message-Succeeds id m (at_place p l) v)

  room-Keeps : AreValid l.rooms → Keeps id l (call (room_callback address) id m l)
  room-Keeps a = elim (Option-cases (find_if (λ r. r.address == address) l.rooms)) [
    | inl e ↦ rw (call_room-none e) (record {
      sound = refl;
      valid = a;
      input = refl;
      same_keys = λ _. refl;
      still = λ _ _ k. k;
    })
    | inr (p, e) ↦
        let split = (find_if-IsFirst _ l.rooms p e).split in
        let here = found-IsValid p l.rooms split a in
        rw (call_room-some p e here) (record {
          sound = refl;
          valid =
              AreValid-replace p l.rooms _ split a
                (handle_player_message-Succeeds id m (at_place p l) here).valid;
          input = handle_player_message-input id m (at_place p l);
          same_keys = handle_player_message-SameKeys id m (at_place p l);
          still = handle_player_message-IsStill id m (at_place p l);
        })
  ]

pub call-Keeps :
    (c : PlayerActionCallback) (id : ℕ) (m : PlayerActionMessage) (l : Lobby)
    → AreValid l.rooms
    → Keeps id l (call c id m l)
unfolding call
call-Keeps manager_callback id m l a = manager-Keeps id m l a
call-Keeps (room_callback address) id m l a = room-Keeps address id m l a

pub continue-Keeps :
    (id : ℕ) (l : Lobby) (o : Result (Unit {0}) × Lobby) (k : Exec Lobby (Unit {0}))
    → Keeps id l o
    → ((t : Lobby) → AreValid t.rooms → Keeps id t (k t))
    → Keeps id l (continue o.0 o.1 (λ _. k))
continue-Keeps id l (ok a, t) k h later =
    let next = later t h.valid in
    record {
      sound = next.sound;
      valid = next.valid;
      input = next.input ∙ h.input;
      same_keys = λ known.
          let same = h.same_keys known in next.same_keys (ap (among id) same ∙ known) ∙ same;
      still = λ j a k. next.still j a (h.still j a k);
    }
continue-Keeps id l (err x, t) k h later = h

pub try-Keeps :
    (id : ℕ) (l : Lobby) (o : Result (Unit {0}) × Lobby)
    → Keeps id l o
    → Keeps id l (caught o.0, o.1)
try-Keeps id l (ok a, t) h = h
try-Keeps id l (err undefined_behaviour, t) h = h
try-Keeps id l (err bad_optional_access, t) h = absurd (ground (arith, h.sound))
try-Keeps id l (err bad_function_call, t) h = absurd (ground (arith, h.sound))
try-Keeps id l (err runtime_error, t) h = absurd (ground (arith, h.sound))
try-Keeps id l (err serialize_exception, t) h = absurd (ground (arith, h.sound))

pub call_all-Keeps :
    (cs : List Subscription) (id : ℕ) (m : PlayerActionMessage) (l : Lobby)
    → AreValid l.rooms
    → Keeps id l (call_all cs id m l)
unfolding call_all
call_all-Keeps [] id m l a = record {
  sound = refl;
  valid = a;
  input = refl;
  same_keys = λ _. refl;
  still = λ _ _ k. k;
}
call_all-Keeps (s ∷ rest) id m l a =
    continue-Keeps id l (try (call s.callback id m) l) _
      (try-Keeps id l _ (call-Keeps s.callback id m l a)) λ t b. call_all-Keeps rest id m t b
