-- ===== src/RoomManager/Welcome.antt =====
-- What a player that joins is told.
use samurai_kirby_server.Prelude.{
  String, ℕ, ◌≡◌, refl, ◌∙◌, Option, some, List, [], ◌∷◌, ◌++◌, inl, inr, false, arith,
  Option-cases, if◌then◌else◌, ◌==◌,
}
use mathlib.Core.List.{append_assoc}
use samurai_kirby_server.Player.{GameDifficulty, PlayerAssignment, PlayerLobbyDto, p1}
use samurai_kirby_server.Messages.{GameplayMessage, room_joined}
use samurai_kirby_server.Room.State.{RoomWorld, new_room}
use samurai_kirby_server.Room.Queries.{is_full, get_available_assignment}
use samurai_kirby_server.Room.Membership.{add_player}
use samurai_kirby_server.Room.Mailbox.{mailbox}
use samurai_kirby_server.Room.Joining.{add_player-Joins}
use samurai_kirby_server.RoomManager.{Lobby, find_if, is_open_for, add_player_to_room}
use samurai_kirby_server.RoomManager.Places.{find_if-IsFirst}
use samurai_kirby_server.RoomManager.Outcomes.{
  at_place, opened, add_player_to_room-none, add_player_to_room-some,
}
use samurai_kirby_server.RoomManager.Soundness.{AreLive, found-IsLive}

-- In a queue, the news that a player has joined a room comes after all that was there before.
pub record IsWelcomed (before after : List GameplayMessage) : Type 0 where
  pub slot : PlayerAssignment
  pub other_player : Option PlayerLobbyDto
  pub later : List GameplayMessage
  pub mail : after ≡ before ++ room_joined slot other_player ∷ later

mail-IsWelcomed :
    (id : ℕ) (before after later : List GameplayMessage) (slot : PlayerAssignment)
    (other_player : Option PlayerLobbyDto)
    → after ≡ (before ++ (if id == id then room_joined slot other_player ∷ [] else [])) ++ later
    → IsWelcomed before after
mail-IsWelcomed id before after later slot other_player e = record {
  slot = slot;
  other_player = other_player;
  later = later;
  mail = e ∙ ground arith ∙ append_assoc before (room_joined slot other_player ∷ []) later;
}

add_player-IsWelcomed :
    (id : ℕ) (nickname : String) (slot : PlayerAssignment) (w : RoomWorld)
    → get_available_assignment w.room ≡ some slot
    → IsWelcomed (mailbox id w.env) (mailbox id (add_player id nickname w).1.env)
add_player-IsWelcomed id nickname slot w h =
    mail-IsWelcomed id _ _ _ slot _ ((add_player-Joins id nickname slot w h).mail id)

available :
    (w : RoomWorld)
    → is_full w.room ≡ false
    → (slot : PlayerAssignment) × (get_available_assignment w.room ≡ some slot)
unfolding is_full get_available_assignment
available w h = elim (Option-cases (get_available_assignment w.room)) [
  | inl e ↦ ground arith
  | inr found ↦ found
]

pub add_player_to_room-IsWelcomed :
    (id : ℕ) (nickname : String) (d : GameDifficulty) (l : Lobby)
    → AreLive l.rooms
    → IsWelcomed (mailbox id l.env) (mailbox id (add_player_to_room id nickname d l).1.env)
unfolding get_available_assignment new_room
add_player_to_room-IsWelcomed id nickname d l a =
    elim (Option-cases (find_if (is_open_for d) l.rooms)) [
      | inl e ↦
          rw (add_player_to_room-none id nickname d l e)
            (add_player-IsWelcomed id nickname p1 (opened d l) refl)
      | inr (p, e) ↦
          let first = find_if-IsFirst _ l.rooms p e in
          let here = found-IsLive p l.rooms first.split a in
          let free = available (at_place p l) (ground (arith, first.passes)) in
          rw (add_player_to_room-some id nickname d l p e here.valid)
            (add_player-IsWelcomed id nickname free.0 (at_place p l) free.1)
    ]
