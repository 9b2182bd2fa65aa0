-- ===== src/Room/Leaving.antt =====
-- Who sits in a room after Room::removePlayer, and who hears of it.
use samurai_kirby_server.Prelude.{
  Option-cases, subst, ℕ, ◌≡◌, refl, inl, inr, Option, none, some, false, arith, if◌then◌else◌,
  ◌++◌, ◌==◌,
}
use samurai_kirby_server.Exec.{ok}
use samurai_kirby_server.Player.{PlayerAssignment, p1, p2, Player, reset_to_replay}
use samurai_kirby_server.Messages.{GameplayMessage, player_left_room}
use samurai_kirby_server.Environment.{
  Environment, Context, room_at, unsubscribe_to_player_action_messages,
}
use samurai_kirby_server.Room.State.{
  Room, RoomWorld, waiting_players, players, set_players, notify, broadcast_gameplay_message,
}
use samurai_kirby_server.Room.Queries.{has_player_with_id, get_player_by_id}
use samurai_kirby_server.Room.Ticks.{other}
use samurai_kirby_server.Room.Membership.{remove_player_at, remove_player}
use samurai_kirby_server.Room.Validity.{ready_again, IsValid, DifferentIds}
use samurai_kirby_server.Room.Mailbox.{mailbox, copy_for, mailbox-notify}

-- A player that is not in the room cannot be removed from it.
pub remove_player-absent :
    (id : ℕ) (w : RoomWorld)
    → has_player_with_id id w.room ≡ false
    → remove_player id w ≡ (ok tt, w)
unfolding remove_player get_player_by_id has_player_with_id
remove_player-absent id w h = ground arith

abbrev reset_seat : Option Player → Option Player
reset_seat none = none
reset_seat (some p) = some (ready_again p)

-- A player that left its slot.
pub record Leaves (id : ℕ) (slot : PlayerAssignment) (before after : RoomWorld) : Type 0 where
  pub seat : players after.room slot ≡ none
  pub other_seat : players after.room (other slot) ≡ reset_seat (players before.room (other slot))
  pub waiting : after.room.gameplay_state ≡ waiting_players
  pub mail :
      (j : ℕ)
      → mailbox j after.env
        ≡ mailbox j before.env
          ++ copy_for j (players before.room (other slot)) (player_left_room slot)

mailbox-left :
    (j id : ℕ) (context : Context) (o : Option Player) (m : GameplayMessage) (e : Environment)
    → mailbox j (notify (reset_seat o) m (unsubscribe_to_player_action_messages id context e))
      ≡ mailbox j e ++ copy_for j o m
unfolding unsubscribe_to_player_action_messages reset_to_replay
mailbox-left j id context none m e = mailbox-notify j none m _
mailbox-left j id context (some p) m e = mailbox-notify j (some (ready_again p)) m _

abbrev seated : PlayerAssignment → Player → RoomWorld → RoomWorld
seated slot p w = record w {
  room = set_players w.room slot (some (record p { assignment = slot }));
}

seated-Leaves :
    (slot : PlayerAssignment) (p : Player) (w : RoomWorld)
    → Leaves p.id slot (seated slot p w) (remove_player_at slot (seated slot p w)).1
unfolding remove_player_at broadcast_gameplay_message notify reset_to_replay
seated-Leaves p1 p w = record {
  seat = refl;
  other_seat = refl;
  waiting = refl;
  mail =
      λ j. mailbox-left j p.id (room_at w.room.address) w.room.player2 (player_left_room p1) w.env;
}
seated-Leaves p2 p w = record {
  seat = refl;
  other_seat = refl;
  waiting = refl;
  mail =
      λ j. mailbox-left j p.id (room_at w.room.address) w.room.player1 (player_left_room p2) w.env;
}

seated-eq :
    (slot : PlayerAssignment) (p : Player) (w : RoomWorld)
    → IsValid w.room
    → players w.room slot ≡ some p
    → seated slot p w ≡ w
seated-eq p1 p w v h = ground arith
seated-eq p2 p w v h = ground arith

remove_player-eq-remove_player_at :
    (id : ℕ) (slot : PlayerAssignment) (w : RoomWorld)
    → get_player_by_id id w.room ≡ some slot
    → remove_player id w ≡ remove_player_at slot w
unfolding remove_player
remove_player-eq-remove_player_at id slot w h = ground arith

get_player_by_id-seat :
    (id : ℕ) (slot : PlayerAssignment) (r : Room)
    → get_player_by_id id r ≡ some slot
    → (p : Player) × (players r slot ≡ some p) × (p.id ≡ id)
unfolding get_player_by_id
get_player_by_id-seat id p1 r h = ground arith
get_player_by_id-seat id p2 r h = ground arith

-- If a valid room has a player of the given id, the one that is found leaves: its slot is free, the
-- room waits for players, and the other player, if there is one, is ready, can not play yet, does not
-- ask for another game, and has no input and no time to press, and is the same in all else. That
-- player is told who left, and no other queue changes. What the code reads of the player that left,
-- after its slot is emptied, is taken to be what stood there.
pub remove_player-Leaves :
    (id : ℕ) (slot : PlayerAssignment) (w : RoomWorld)
    → IsValid w.room
    → get_player_by_id id w.room ≡ some slot
    → Leaves id slot w (remove_player id w).1
remove_player-Leaves id slot w v h =
    let (p, here, same) = get_player_by_id-seat id slot w.room h in
    rw (remove_player-eq-remove_player_at id slot w h) (
      subst (λ u. Leaves id slot u (remove_player_at slot u).1) (seated-eq slot p w v here)
        (subst (λ k. Leaves k slot (seated slot p w) (remove_player_at slot (seated slot p w)).1)
          same (seated-Leaves slot p w)))

get_player_by_id-none :
    (id : ℕ) (r : Room) → get_player_by_id id r ≡ none → has_player_with_id id r ≡ false
unfolding get_player_by_id has_player_with_id
get_player_by_id-none id r h = ground arith

Leaves-has_player_with_id :
    (id : ℕ) (slot : PlayerAssignment) (w after : RoomWorld) (j : ℕ)
    → DifferentIds w.room.player1 w.room.player2
    → get_player_by_id id w.room ≡ some slot
    → Leaves id slot w after
    → has_player_with_id j after.room ≡ (if id == j then false else has_player_with_id j w.room)
unfolding get_player_by_id has_player_with_id reset_to_replay
Leaves-has_player_with_id id p1 w after j d h l = ground (arith, l.seat, l.other_seat)
Leaves-has_player_with_id id p2 w after j d h l = ground (arith, l.seat, l.other_seat)

-- In a valid room whose two slots do not hold the same id, after a player of an id was removed the
-- room has no player of that id, and has a player of another id exactly if it had one.
has_player_with_id-remove_player :
    (id j : ℕ) (w : RoomWorld)
    → IsValid w.room
    → DifferentIds w.room.player1 w.room.player2
    → has_player_with_id j (remove_player id w).1.room
      ≡ (if id == j then false else has_player_with_id j w.room)
has_player_with_id-remove_player id j w v d = elim (Option-cases (get_player_by_id id w.room)) [
  | inl e ↦
      let absent = get_player_by_id-none id w.room e in
      rw (remove_player-absent id w absent) (ground (arith, absent))
  | inr (slot, e) ↦ Leaves-has_player_with_id id slot w _ j d e (remove_player-Leaves id slot w v e)
]
