-- ===== src/Room/Validity.antt =====
-- What holds of a room between two calls, and what every call owes: it throws nothing, and leaves
-- the room so.
use samurai_kirby_server.Prelude.{ℕ, ◌≤◌, ◌≡◌, ◌≢◌, ◌⊎◌, Option, none, some, true, false, has_value}
use samurai_kirby_server.Exec.{Exec, ok}
use samurai_kirby_server.Player.{PlayerAssignment, p1, p2, Player}
use samurai_kirby_server.Environment.{Environment}
use samurai_kirby_server.Room.State.{Room, RoomWorld, waiting_players, expecting_input}
use samurai_kirby_server.Room.Queries.{is_full}

-- A player sits in the slot of its assignment, and an input has the time at which it came.
abbrev pub IsSeated : PlayerAssignment → Option Player → Type 0
IsSeated slot none = Unit {0}
IsSeated slot (some p) =
    (p.assignment ≡ slot)
    × (has_value p.input_pressed ≡ true → has_value p.input_pressed_at_server_time ≡ true)

pub record IsValid (r : Room) : Type 0 where
  pub full_in_game : (r.gameplay_state ≡ waiting_players) ⊎ (is_full r ≡ true)
  pub ready_when_expecting :
      r.gameplay_state ≡ expecting_input → has_value r.ready_for_input_at ≡ true
  pub seated1 : IsSeated p1 r.player1
  pub seated2 : IsSeated p2 r.player2

-- A player that is to play again: ready, unable to play yet, not asking for another game, with no input
-- and no time to press. When the server got its last input stays.
abbrev pub ready_again : Player → Player
ready_again p = record {
  id = p.id;
  nickname = p.nickname;
  assignment = p.assignment;
  is_ready = true;
  can_play = false;
  is_ready_to_replay = false;
  input_pressed = none;
  time_to_press = none;
  input_pressed_at_server_time = p.input_pressed_at_server_time;
}

-- std::uniform_int_distribution: a draw lies between its bounds.
abbrev pub DrawsInRange : Environment → Type 0
DrawsInRange e = (n a b : ℕ) → a ≤ b → (a ≤ e.random n a b) × (e.random n a b ≤ b)

-- `m` throws nothing in `w`, leaves a valid room, and the same clock and generator.
pub record Succeeds (m : Exec RoomWorld (Unit {0})) (w : RoomWorld) : Type 0 where
  pub returned : (m w).0 ≡ ok tt
  pub valid : IsValid (m w).1.room
  pub same_random : (m w).1.env.random ≡ w.env.random

-- The two slots hold different players.
abbrev pub DifferentIds : Option Player → Option Player → Type 0
DifferentIds none b = Unit {0}
DifferentIds (some a) none = Unit {0}
DifferentIds (some a) (some b) = a.id ≢ b.id
