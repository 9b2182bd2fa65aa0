-- ===== src/Room/Queries.antt =====
-- The methods of gameplay/Room/Room.cpp that only read the room. Each `value()` in them stands
-- behind a test that the slot is filled, and so cannot throw.
use samurai_kirby_server.Prelude.{
  ℕ, Option, none, some, Bool, false, ◌&&◌, ◌||◌, not, ◌==◌, if◌then◌else◌, has_value,
}
use samurai_kirby_server.Player.{PlayerAssignment, p1, p2, Player}
use samurai_kirby_server.Room.State.{Room}

unfoldable pub is_full : Room → Bool
is_full r = has_value r.player1 && has_value r.player2

unfoldable pub is_empty : Room → Bool
is_empty r = not (has_value r.player1) && not (has_value r.player2)

-- `isFull() && test(players[P1].value()) && test(players[P2].value())`
abbrev both : (Player → Bool) → Option Player → Option Player → Bool
both test none none = false
both test none (some b) = false
both test (some a) none = false
both test (some a) (some b) = test a && test b

unfoldable pub is_everyone_ready : Room → Bool
is_everyone_ready r = both (λ p. p.is_ready) r.player1 r.player2

unfoldable pub everyone_can_play : Room → Bool
everyone_can_play r = both (λ p. p.can_play) r.player1 r.player2

unfoldable pub everyone_played : Room → Bool
everyone_played r = both (λ p. has_value p.input_pressed) r.player1 r.player2

unfoldable pub no_one_played : Room → Bool
no_one_played r = both (λ p. not (has_value p.input_pressed)) r.player1 r.player2

unfoldable pub everyone_wants_to_replay : Room → Bool
everyone_wants_to_replay r = both (λ p. p.is_ready_to_replay) r.player1 r.player2

abbrev has_id : ℕ → Option Player → Bool
has_id id none = false
has_id id (some p) = p.id == id

unfoldable pub has_player_with_id : ℕ → Room → Bool
has_player_with_id id r = has_id id r.player1 || has_id id r.player2

-- The slot that the returned pointer points into.
unfoldable pub get_player_by_id : ℕ → Room → Option PlayerAssignment
get_player_by_id id r =
    if has_id id r.player1 then some p1 else if has_id id r.player2 then some p2 else none

unfoldable pub get_available_assignment : Room → Option PlayerAssignment
get_available_assignment r =
    if not (has_value r.player1)
    then some p1
    else if not (has_value r.player2)
    then some p2
    else none
