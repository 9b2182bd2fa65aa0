-- ===== src/Room/Seats.antt =====
-- How many slots of a room hold a given id, after the calls of Room.cpp that seat and free.
use samurai_kirby_server.Prelude.{
  ℕ, ◌+◌, String, ◌≡◌, inl, inr, Option, none, some, Bool, true, false, ◌==◌, Option-cases, arith,
}
use samurai_kirby_server.Player.{Player, PlayerAssignment, p1, p2, reset_to_replay, new_player}
use samurai_kirby_server.Room.State.{Room, RoomWorld}
use samurai_kirby_server.Room.Queries.{
  is_full, is_empty, has_player_with_id, get_player_by_id, get_available_assignment,
}
use samurai_kirby_server.Room.Ticks.{tick}
use samurai_kirby_server.Room.Membership.{add_player, remove_player}
use samurai_kirby_server.Room.Validity.{IsValid}
use samurai_kirby_server.Room.Joining.{Joins, add_player-Joins}
use samurai_kirby_server.Room.Leaving.{Leaves, remove_player-Leaves}
use samurai_kirby_server.Room.Frame.{tick-SameSeats}

abbrev pub one_if : Bool → ℕ
one_if true = 1
one_if false = 0

abbrev pub seat : ℕ → Option Player → ℕ
seat j none = 0
seat j (some p) = one_if (p.id == j)

abbrev pub room_seats : ℕ → Room → ℕ
room_seats j r = seat j r.player1 + seat j r.player2

pub Joins-room_seats :
    (id : ℕ) (nickname : String) (slot : PlayerAssignment) (w v : RoomWorld) (j : ℕ)
    → get_available_assignment w.room ≡ some slot
    → Joins id nickname slot w v
    → room_seats j v.room ≡ room_seats j w.room + one_if (id == j)
unfolding get_available_assignment new_player
Joins-room_seats id nickname p1 w v j h k = ground (arith, k.seat, k.other_seat)
Joins-room_seats id nickname p2 w v j h k = ground (arith, k.seat, k.other_seat)

get_available_assignment-some :
    (r : Room)
    → is_full r ≡ false
    → (slot : PlayerAssignment) × (get_available_assignment r ≡ some slot)
unfolding is_full get_available_assignment
get_available_assignment-some r h = elim (Option-cases r.player1) [
  | inl e ↦ (p1, ground arith)
  | inr (a, e) ↦ (p2, ground arith)
]

pub add_player-room_seats :
    (id : ℕ) (nickname : String) (w : RoomWorld) (j : ℕ)
    → is_full w.room ≡ false
    → room_seats j (add_player id nickname w).1.room ≡ room_seats j w.room + one_if (id == j)
add_player-room_seats id nickname w j h =
    let (slot, free) = get_available_assignment-some w.room h in
    Joins-room_seats id nickname slot w _ j free (add_player-Joins id nickname slot w free)

Leaves-room_seats :
    (id : ℕ) (slot : PlayerAssignment) (w v : RoomWorld) (j : ℕ)
    → get_player_by_id id w.room ≡ some slot
    → Leaves id slot w v
    → room_seats j v.room + one_if (id == j) ≡ room_seats j w.room
unfolding get_player_by_id reset_to_replay
Leaves-room_seats id p1 w v j h k = ground (arith, k.seat, k.other_seat)
Leaves-room_seats id p2 w v j h k = ground (arith, k.seat, k.other_seat)

has_player_with_id-some :
    (id : ℕ) (r : Room)
    → has_player_with_id id r ≡ true
    → (slot : PlayerAssignment) × (get_player_by_id id r ≡ some slot)
unfolding has_player_with_id get_player_by_id
has_player_with_id-some id r h = elim (Option-cases (get_player_by_id id r)) [
  | inl e ↦ absurd (ground arith)
  | inr (slot, e) ↦ (slot, e)
]

pub remove_player-room_seats :
    (id : ℕ) (w : RoomWorld) (j : ℕ)
    → IsValid w.room
    → has_player_with_id id w.room ≡ true
    → room_seats j (remove_player id w).1.room + one_if (id == j) ≡ room_seats j w.room
remove_player-room_seats id w j v h =
    let (slot, e) = has_player_with_id-some id w.room h in
    Leaves-room_seats id slot w _ j e (remove_player-Leaves id slot w v e)

pub is_empty-room_seats : (j : ℕ) (r : Room) → is_empty r ≡ true → room_seats j r ≡ 0
unfolding is_empty
is_empty-room_seats j r h = ground arith

pub tick-room_seats : (w : RoomWorld) (j : ℕ) → room_seats j (tick w).1.room ≡ room_seats j w.room
tick-room_seats w j = ground (arith, tick-SameSeats w)
