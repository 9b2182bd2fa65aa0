-- ===== src/Room/Examples.antt =====
-- The theorems on a room at concrete games, and runs of the code.
use samurai_kirby_server.Prelude.{
  ℕ, suc, ◌+◌, ◌*◌, ◌≤◌, ◌<◌, ◌≡◌, ◌≢◌, refl, none, some, true, false, ◌++◌, pos, arith,
}
use samurai_kirby_server.Exec.{ok}
use samurai_kirby_server.Player.{p1, p2, Player, north, south}
use samurai_kirby_server.Messages.{
  player_input, set_ready_state, set_replay_ready_state, game_over_early_input,
}
use samurai_kirby_server.Environment.{get_seconds_since}
use samurai_kirby_server.Room.State.{
  RoomWorld, GameplayState, waiting_players, started, expecting_input, over,
}
use samurai_kirby_server.Room.Queries.{get_player_by_id, get_available_assignment}
use samurai_kirby_server.Room.Ticks.{tick}
use samurai_kirby_server.Room.Membership.{add_player, remove_player}
use samurai_kirby_server.Room.Validity.{IsValid, ready_again}
use samurai_kirby_server.Room.Reachability.{
  adds, ticks, run, calls, here, next, fresh, reachable_never_throws,
}
use samurai_kirby_server.Room.Transitions.{ticks_to, tick_moves}
use samurai_kirby_server.Room.Verdict.{
  win, Settles, judge, judge_one, game_result, announce, announcement, told, tick-Settles,
  mailbox-tick,
}
use samurai_kirby_server.Room.Mailbox.{mailbox}
use samurai_kirby_server.Room.Game.{
  Hosts, send, after_tick, pressed, starts_when_both_ready, early_input_loses, first_input_Settles,
  rematch_is_clean, stale_input_loses,
}
use samurai_kirby_server.Room.Joining.{Joins, add_player-Joins}
use samurai_kirby_server.Room.Leaving.{Leaves, remove_player-Leaves}
use samurai_kirby_server.Room.Waiting
use samurai_kirby_server.Room.Steady.{IsSteady}
use samurai_kirby_server.Room.Winning.{right_press_wins}
use samurai_kirby_server.Room.Ending.{Begins, game_ends}
use samurai_kirby_server.Room.Fixtures.{
  calm, calm-DrawsInRange, quick, alice, bob, room_of, playing, hasty, hosted, playing-IsValid,
}
use samurai_kirby_server.Room.Timing.{get_seconds_since_counts, no_request_before_delay}

reachable_never_throws_example :
    ((run ticks (run (adds 1 "alice") (fresh 0 quick calm)).1).0 ≡ ok tt)
    × IsValid (run ticks (run (adds 1 "alice") (fresh 0 quick calm)).1).1.room
reachable_never_throws_example =
    reachable_never_throws 0 quick calm ticks calm-DrawsInRange
      (next here (calls (adds 1 "alice") (fresh 0 quick calm)))

tick-Settles_example :
    Settles
      (judge (room_of expecting_input (some alice) (some bob)) alice bob 7000000000)
      alice
      bob
      (playing expecting_input alice bob)
      (tick (playing expecting_input alice bob)).1
tick-Settles_example =
    tick-Settles (playing expecting_input alice bob) alice bob 6500000000 refl refl refl refl
      (refl, λ h. cc) (refl, λ h. cc)

mailbox-tick_example :
    mailbox 1 (tick (playing expecting_input hasty bob)).1.env
    ≡ mailbox 1 calm
      ++ told 1
          (announcement
            (judge (room_of expecting_input (some hasty) (some bob)) hasty bob 7000000000)
            hasty
            bob)
          hasty
          bob
mailbox-tick_example =
    mailbox-tick (playing expecting_input hasty bob) hasty bob 6500000000 1 refl refl refl refl
      (refl, λ h. refl) (refl, λ h. cc)

first_input_Settles_example :
    Settles
      (judge_one quick south p1 south (some 7000000000) 8000000000)
      (pressed alice south (pos 200) 7000000000)
      bob
      (send 1 (player_input south (pos 200)) (playing expecting_input alice bob))
      (after_tick (send 1 (player_input south (pos 200)) (playing expecting_input alice bob)))
    × Settles
        (judge_one quick south p2 south (some 7000000000) 8000000000)
        alice
        (pressed bob south (pos 200) 7000000000)
        (send 2 (player_input south (pos 200)) (playing expecting_input alice bob))
        (after_tick (send 2 (player_input south (pos 200)) (playing expecting_input alice bob)))
first_input_Settles_example =
    first_input_Settles (playing expecting_input alice bob) alice bob south (pos 200) 6500000000
      (hosted expecting_input) refl refl refl refl

starts_when_both_ready_example :
    ((after_tick (
        send 2
          (set_ready_state true)
          (send 1 (set_ready_state false) (playing waiting_players alice bob)))).room.gameplay_state
      ≡ waiting_players)
    × ((after_tick (
          send 1 (set_ready_state false) (
            send 2 (set_ready_state true) (playing waiting_players alice bob)))).room.gameplay_state
        ≡ waiting_players)
starts_when_both_ready_example =
    starts_when_both_ready (playing waiting_players alice bob) alice bob false true
      (hosted waiting_players) refl

abbrev slow : Player
slow = record alice { can_play = false }

slow_hosted : (state : GameplayState) → Hosts (playing state slow bob) slow bob
slow_hosted state = record { first = refl; second = refl; distinct = omega arith }

early_input_loses_example :
    let v = after_tick (send 1 (player_input south (pos 9)) (playing started slow bob)) in
    let u = after_tick (send 2 (player_input south (pos 9)) (playing started slow bob)) in
    let a = pressed slow south (pos 9) 7000000000 in
    let b = pressed bob south (pos 9) 7000000000 in
    (v.room.gameplay_state ≡ over)
    × (v.env.hub
        ≡ (announce (some (game_over_early_input (game_result (some p2) a bob))) a bob calm).hub)
    × (u.room.gameplay_state ≡ over)
    × (u.env.hub
        ≡ (announce (some (game_over_early_input (game_result (some p1) slow b))) slow b calm).hub)
early_input_loses_example =
    early_input_loses (playing started slow bob) slow bob south (pos 9) (slow_hosted started) refl
      refl refl refl

rematch_is_clean_example :
    (after_tick (
      send 2
        (set_replay_ready_state true)
        (send 1 (set_replay_ready_state true) (playing over hasty bob)))).room
    ≡ record (room_of started (some (ready_again hasty)) (some (ready_again bob))) {
      expected_input = north;
      everyone_can_play_at = none;
      ready_for_input_at = none;
    }
rematch_is_clean_example =
    rematch_is_clean (playing over hasty bob) hasty bob
      (record { first = refl; second = refl; distinct = omega arith }) refl

stale_input_loses_example :
    (after_tick (
      after_tick (
        send 1
          (player_input south (pos 9))
          (playing waiting_players slow bob)))).room.gameplay_state
    ≡ over
stale_input_loses_example =
    stale_input_loses (playing waiting_players slow bob) slow bob south (pos 9)
      (slow_hosted waiting_players) refl refl refl refl refl

tick_moves_example :
    ticks_to started (tick (playing started alice bob)).1.room.gameplay_state ≡ true
tick_moves_example = tick_moves (playing started alice bob)

abbrev half_empty : RoomWorld
half_empty = record { room = room_of waiting_players (some alice) none; env = calm }

half_empty-IsValid : IsValid half_empty.room
half_empty-IsValid = ground arith

add_player-Joins_example : Joins 2 "bob" p2 half_empty (add_player 2 "bob" half_empty).1
unfolding get_available_assignment
add_player-Joins_example = add_player-Joins 2 "bob" p2 half_empty refl

remove_player-Leaves_example :
    Leaves 1 p1
      (playing expecting_input alice bob)
      (remove_player 1 (playing expecting_input alice bob)).1
unfolding get_player_by_id
remove_player-Leaves_example =
    remove_player-Leaves 1 p1 (playing expecting_input alice bob) playing-IsValid refl

get_seconds_since_counts_example :
    (n : ℕ) × ((get_seconds_since 1000000000 calm).0 ≡ ok (pos n))
    × (n * 1000000000 ≤ 6000000000)
    × (6000000000 < suc n * 1000000000)
get_seconds_since_counts_example =
    get_seconds_since_counts 1000000000 6000000000 calm refl (omega arith)

no_request_before_delay_example :
    (tick (playing started alice bob)).1.room.gameplay_state ≢ expecting_input
no_request_before_delay_example =
    no_request_before_delay (playing started alice bob) 6000000000 1000000000 5 refl refl refl refl
      (omega arith) (omega arith)

abbrev beginning : RoomWorld
beginning = record (playing started alice bob) {
  room = record (room_of started (some alice) (some bob)) { everyone_can_play_at = none };
}

calm-IsSteady : IsSteady calm.clock 1 1000000000
calm-IsSteady = record {
  forward = λ i. omega arith;
  gradual = λ i. omega arith;
  second = λ i. omega arith;
}

beginning-Begins : Begins alice bob beginning
beginning-Begins = record {
  state = refl;
  first = refl;
  second = refl;
  able1 = refl;
  able2 = refl;
  quiet1 = refl;
  quiet2 = refl;
  fresh = refl;
}

game_ends_example :
    (n : ℕ) × (n ≤ 5 * 1 + 5 * 1 + 2) × ((Waiting.ticks n beginning).room.gameplay_state ≡ over)
game_ends_example =
    game_ends 1 1000000000 5 5 alice bob beginning beginning-Begins refl refl calm-IsSteady
      (omega arith) (omega arith)

right_press_wins_example :
    let v = send 1 (player_input south (pos 200)) (playing expecting_input alice bob) in
    let u = send 2 (player_input south (pos 200)) (playing expecting_input alice bob) in
    ((n : ℕ) × (n ≤ 1 * 1)
      × Settles (win p1) (pressed alice south (pos 200) 7000000000) bob v (Waiting.ticks (suc n) v))
    × ((n : ℕ) × (n ≤ 1 * 1)
        × Settles
            (win p2)
            alice
            (pressed bob south (pos 200) 7000000000)
            u
            (Waiting.ticks (suc n) u))
right_press_wins_example =
    right_press_wins 1 1000000000 1 (playing expecting_input alice bob) alice bob south (pos 200)
      (hosted expecting_input) playing-IsValid refl refl refl refl refl calm-IsSteady (omega arith)
