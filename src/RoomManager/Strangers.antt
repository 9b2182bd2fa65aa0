-- ===== src/RoomManager/Strangers.antt =====
-- What the calls of RoomManager.cpp mean for an id that the game does not know.
use samurai_kirby_server.Prelude.{
  ℕ, String, ◌≡◌, refl, ◌∙◌, false, inl, inr, Option-cases, Bool-cases, List, [], ◌∷◌, All,
  All-append, ◌==◌,
}
use samurai_kirby_server.Prelude.UnorderedMap.{has_key}
use samurai_kirby_server.Player.{GameDifficulty}
use samurai_kirby_server.Environment.{Environment}
use samurai_kirby_server.Room.Outsiders.{IsAbsent}
use samurai_kirby_server.Room.State.{Room, RoomWorld, new_room}
use samurai_kirby_server.Room.Queries.{is_empty, has_player_with_id}
use samurai_kirby_server.Room.Ticks.{tick}
use samurai_kirby_server.Room.Membership.{remove_player}
use samurai_kirby_server.Room.Validity.{DrawsInRange}
use samurai_kirby_server.Room.Safety.{tick-Succeeds, same_random-DrawsInRange}
use samurai_kirby_server.Room.Mailbox.{mailbox}
use samurai_kirby_server.Room.Strangers.{
  IsStrangerTo, tick-IsStrangerTo, add_player-IsStrangerTo, remove_player-IsStrangerTo,
}
use samurai_kirby_server.RoomManager.{
  Lobby, find_if, is_open_for, add_player_to_room, remove_player_from_room, tick_rooms,
  tick_all_rooms,
}
use samurai_kirby_server.RoomManager.Places.{find_if-IsFirst, All-replace, All-drop, All-found}
use samurai_kirby_server.RoomManager.Outcomes.{
  at_place, opened, add_player_to_room-none, add_player_to_room-some, remove_player_from_room-none,
  remove_player_from_room-some,
}
use samurai_kirby_server.RoomManager.Validity.{AreValid, found-IsValid}

-- The id `j` sits in no room, no message waits for it, and no callback listens to it.
pub record IsStranger (j : ℕ) (rooms : List Room) (e : Environment) : Type 0 where
  pub absent : All (IsAbsent j) rooms
  pub mail : mailbox j e ≡ []
  pub heard : has_key j e.subscriptions ≡ false

pub IsStrangerTo-IsStranger :
    (j : ℕ) (rooms later : List Room) (w v : RoomWorld)
    → IsStranger j rooms w.env
    → IsStrangerTo j w v
    → All (IsAbsent j) later
    → IsStranger j later v.env
IsStrangerTo-IsStranger j rooms later w v h k a = record {
  absent = a;
  mail = k.mail ∙ h.mail;
  heard = k.heard ∙ h.heard;
}

abbrev pub StrangerIn : ℕ → Lobby → Type 0
StrangerIn j l = IsStranger j l.rooms l.env

pub add_player_to_room-StrangerIn :
    (j id : ℕ) (nickname : String) (d : GameDifficulty) (l : Lobby)
    → (id == j) ≡ false
    → AreValid l.rooms
    → StrangerIn j l
    → StrangerIn j (add_player_to_room id nickname d l).1
unfolding new_room
add_player_to_room-StrangerIn j id nickname d l o a h =
    elim (Option-cases (find_if (is_open_for d) l.rooms)) [
      | inl e ↦
          let k = add_player-IsStrangerTo j id nickname (opened d l) o refl in
          rw (add_player_to_room-none id nickname d l e) (
            IsStrangerTo-IsStranger j l.rooms _ _ _
              (record { absent = h.absent; mail = h.mail; heard = h.heard }) k
              (All-append (IsAbsent j) l.rooms _ h.absent (k.absent, tt)))
      | inr (p, e) ↦
          let split = (find_if-IsFirst _ l.rooms p e).split in
          let k =
            add_player-IsStrangerTo j id nickname (at_place p l) o
              (All-found (IsAbsent j) p l.rooms split h.absent) in
          rw (add_player_to_room-some id nickname d l p e (found-IsValid p l.rooms split a)) (
            IsStrangerTo-IsStranger j l.rooms _ (at_place p l) _ h k
              (All-replace (IsAbsent j) p l.rooms _ split h.absent k.absent))
    ]

pub remove_player_from_room-StrangerIn :
    (j id : ℕ) (l : Lobby)
    → AreValid l.rooms
    → StrangerIn j l
    → StrangerIn j (remove_player_from_room id l).1
remove_player_from_room-StrangerIn j id l a h =
    elim (Option-cases (find_if (has_player_with_id id) l.rooms)) [
      | inl e ↦ rw (remove_player_from_room-none id l e) h
      | inr (p, e) ↦
          let split = (find_if-IsFirst _ l.rooms p e).split in
          let w = at_place p l in
          let k =
            remove_player-IsStrangerTo j id w (All-found (IsAbsent j) p l.rooms split h.absent) in
          let ends = λ (later : List Room). IsStrangerTo-IsStranger j l.rooms later w _ h k in
          rw (remove_player_from_room-some id l p e (found-IsValid p l.rooms split a))
            (elim (Bool-cases (is_empty (remove_player id w).1.room)) [
              | inl gone ↦ rw gone (ends _ (All-drop (IsAbsent j) p l.rooms split h.absent))
              | inr stays ↦
                  rw stays (ends _ (All-replace (IsAbsent j) p l.rooms _ split h.absent k.absent))
            ])
    ]

tick_rooms-IsStranger :
    (j : ℕ) (rooms : List Room) (e : Environment)
    → DrawsInRange e
    → AreValid rooms
    → IsStranger j rooms e
    → IsStranger j (tick_rooms rooms e).rooms (tick_rooms rooms e).env
unfolding tick_rooms
tick_rooms-IsStranger j [] e draws a h = h
tick_rooms-IsStranger j (r ∷ rest) e draws (here, a) h =
    let w : RoomWorld = record { room = r; env = e } in
    let first = tick-Succeeds w draws here in
    let k = tick-IsStrangerTo j w h.absent.0 in
    let later =
      tick_rooms-IsStranger j rest (tick w).1.env
        (same_random-DrawsInRange e (tick w).1.env first.same_random draws) a
        (IsStrangerTo-IsStranger j (r ∷ rest) rest w (tick w).1 h k h.absent.1) in
    record {
      absent = rw (first.returned, tick_rooms) (k.absent, later.absent);
      mail = rw (first.returned, tick_rooms) later.mail;
      heard = rw (first.returned, tick_rooms) later.heard;
    }

pub tick_all_rooms-StrangerIn :
    (j : ℕ) (l : Lobby)
    → DrawsInRange l.env
    → AreValid l.rooms
    → StrangerIn j l
    → StrangerIn j (tick_all_rooms l).1
unfolding tick_all_rooms
tick_all_rooms-StrangerIn j l draws a h = tick_rooms-IsStranger j l.rooms l.env draws a h
