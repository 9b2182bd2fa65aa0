-- ===== src/Room/Timing.antt =====
-- When things happen: the seconds that gameplay/GameplayChrono.cpp counts, and the delay before the
-- input is asked for.
use samurai_kirby_server.Prelude.{
  ℕ, suc, ◌+◌, ◌*◌, ◌/◌, ◌≤◌, ◌<◌, ◌≡◌, ◌≢◌, refl, some, pos, int_bound, to_int-pos, arith,
}
use samurai_kirby_server.Exec.{ok}
use samurai_kirby_server.Environment.{
  Environment, nanoseconds, seconds_between, get_seconds_since, get_time_now,
}
use samurai_kirby_server.Room.State.{
  RoomWorld, RoomConfig, started, expecting_input, default_config,
}
use samurai_kirby_server.Room.Ticks.{
  request_input_when_due, handle_everyone_can_play, handle_one_player_played, tick,
}
use samurai_kirby_server.Player.{GameDifficulty}
use samurai_kirby_server.Room.Validity.{DrawsInRange}

-- If the clock shows the reference or a time later by less than 2^31 seconds, getSecondsSince
-- returns the number of whole seconds between them.
pub get_seconds_since_counts :
    (reference elapsed : ℕ) (e : Environment)
    → e.clock e.readings ≡ reference + elapsed
    → elapsed < int_bound * nanoseconds
    → (n : ℕ) × ((get_seconds_since reference e).0 ≡ ok (pos n))
      × (n * nanoseconds ≤ elapsed)
      × (elapsed < suc n * nanoseconds)
unfolding get_seconds_since get_time_now seconds_between
get_seconds_since_counts reference elapsed e h b = (
  (elapsed / nanoseconds),
  ground (arith, to_int-pos (elapsed / nanoseconds)),
  omega arith,
  omega arith,
)

-- If draws lie between their bounds, a room of default configuration waits from 5 to 10 seconds
-- before it asks for the input.
pub default_config_delay :
    (d : GameDifficulty) (e : Environment)
    → DrawsInRange e
    → (c : RoomConfig) × (n : ℕ) × ((default_config d e).0 ≡ ok c)
      × (c.seconds_before_input_request ≡ pos n)
      × (5 ≤ n)
      × (n ≤ 10)
unfolding default_config
default_config_delay d e h = (
  _,
  e.random e.draws 5 10,
  refl,
  refl,
  (h e.draws 5 10 (omega arith)).0,
  (h e.draws 5 10 (omega arith)).1,
)

request_not_due :
    (w : RoomWorld) (since elapsed n : ℕ)
    → w.room.everyone_can_play_at ≡ some since
    → w.room.config.seconds_before_input_request ≡ pos n
    → w.env.clock w.env.readings ≡ since + elapsed
    → elapsed < n * nanoseconds
    → n < int_bound
    → (request_input_when_due w).1.room ≡ w.room
unfolding request_input_when_due
request_not_due w since elapsed n s c t e b =
    let (q, counted, low, high) = get_seconds_since_counts since elapsed w.env t (omega arith) in
    let fewer : q < n = omega arith in ground arith

-- If a game has started and the time is known since when both could play, the clock shows a later
-- time or the same, and less than the configured whole seconds have passed, of which there are
-- fewer than 2^31, then after a tick the room does not expect an input.
pub no_request_before_delay :
    (w : RoomWorld) (since elapsed n : ℕ)
    → w.room.gameplay_state ≡ started
    → w.room.everyone_can_play_at ≡ some since
    → w.room.config.seconds_before_input_request ≡ pos n
    → w.env.clock w.env.readings ≡ since + elapsed
    → elapsed < n * nanoseconds
    → n < int_bound
    → (tick w).1.room.gameplay_state ≢ expecting_input
unfolding tick handle_everyone_can_play handle_one_player_played
no_request_before_delay w since elapsed n g s c t e b =
    ground (arith, request_not_due w since elapsed n s c t e b)
