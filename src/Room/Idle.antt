-- ===== src/Room/Idle.antt =====
-- Room::tick of gameplay/Room/Room.cpp in a game that nobody plays.
use samurai_kirby_server.Prelude.{
  ℕ, suc, ◌+◌, ◌*◌, ◌≤◌, ◌<◌, ◌≡◌, none, some, true, pos, int_bound, arith,
}
use samurai_kirby_server.Player.{GameDifficulty, Player}
use samurai_kirby_server.Environment.{
  Environment, publish_gameplay_message, nanoseconds, get_seconds_since,
}
use samurai_kirby_server.Room.State.{
  notify, broadcast_gameplay_message, RoomWorld, started, expecting_input, over,
}
use samurai_kirby_server.Room.Ticks.{
  get_random_gameplay_input, request_input_when_due, request_input, handle_everyone_can_play,
  handle_one_player_played, handle_everyone_played, handle_timeout, tick,
}
use samurai_kirby_server.Room.Waiting.{at_reading}
use samurai_kirby_server.Room.Timing.{get_seconds_since_counts}

-- Nobody has pressed a button yet in a game that expects one since `since`.
pub record Expects (a b : Player) (since : ℕ) (w : RoomWorld) : Type 0 where
  pub state : w.room.gameplay_state ≡ expecting_input
  pub first : w.room.player1 ≡ some a
  pub second : w.room.player2 ≡ some b
  pub quiet1 : a.input_pressed ≡ none
  pub quiet2 : b.input_pressed ≡ none
  pub ready : w.room.ready_for_input_at ≡ some since

pub Expects-at :
    (a b : Player) (since x : ℕ) (w : RoomWorld)
    → Expects a b since w
    → Expects a b since (at_reading x w)
Expects-at a b since x w h = record {
  state = h.state;
  first = h.first;
  second = h.second;
  quiet1 = h.quiet1;
  quiet2 = h.quiet2;
  ready = h.ready;
}

pub expecting_waits :
    (a b : Player) (since elapsed t : ℕ) (w : RoomWorld)
    → Expects a b since w
    → w.room.config.no_input_timeout ≡ pos t
    → t < int_bound
    → w.env.clock w.env.readings ≡ since + elapsed
    → elapsed < t * nanoseconds
    → (tick w).1 ≡ at_reading (suc w.env.readings) w
unfolding tick handle_one_player_played handle_everyone_played handle_timeout get_seconds_since
expecting_waits a b since elapsed t w h limit small shown early =
    let (q, counted, low, high) =
      get_seconds_since_counts since elapsed w.env shown (omega arith) in
    let fewer : q < t = omega arith in ground (arith, counted, h.state, h.first, h.second)

pub expecting_ends :
    (a b : Player) (since elapsed t : ℕ) (w : RoomWorld)
    → Expects a b since w
    → w.room.config.no_input_timeout ≡ pos t
    → w.env.clock w.env.readings ≡ since + elapsed
    → elapsed < int_bound * nanoseconds
    → t * nanoseconds ≤ elapsed
    → (tick w).1.room.gameplay_state ≡ over
unfolding tick handle_one_player_played handle_everyone_played handle_timeout get_seconds_since
expecting_ends a b since elapsed t w h limit shown small late =
    let (q, counted, low, high) = get_seconds_since_counts since elapsed w.env shown small in
    let enough : t ≤ q = omega arith in ground (arith, counted, h.state, h.first, h.second)

-- A game that has started, in which both can play since `since`, and nobody has pressed a button.
pub record Starts (a b : Player) (since : ℕ) (w : RoomWorld) : Type 0 where
  pub state : w.room.gameplay_state ≡ started
  pub first : w.room.player1 ≡ some a
  pub second : w.room.player2 ≡ some b
  pub able1 : a.can_play ≡ true
  pub able2 : b.can_play ≡ true
  pub quiet1 : a.input_pressed ≡ none
  pub quiet2 : b.input_pressed ≡ none
  pub ready : w.room.everyone_can_play_at ≡ some since

pub Starts-at :
    (a b : Player) (since x : ℕ) (w : RoomWorld)
    → Starts a b since w
    → Starts a b since (at_reading x w)
Starts-at a b since x w h = record {
  state = h.state;
  first = h.first;
  second = h.second;
  able1 = h.able1;
  able2 = h.able2;
  quiet1 = h.quiet1;
  quiet2 = h.quiet2;
  ready = h.ready;
}

pub starting_waits :
    (a b : Player) (since elapsed d : ℕ) (w : RoomWorld)
    → Starts a b since w
    → w.room.config.seconds_before_input_request ≡ pos d
    → d < int_bound
    → w.env.clock w.env.readings ≡ since + elapsed
    → elapsed < d * nanoseconds
    → (tick w).1 ≡ at_reading (suc w.env.readings) w
unfolding tick handle_everyone_can_play handle_one_player_played request_input_when_due
    get_seconds_since
starting_waits a b since elapsed d w h delay small shown early =
    let (q, counted, low, high) =
      get_seconds_since_counts since elapsed w.env shown (omega arith) in
    let fewer : q < d = omega arith in
    ground (arith, counted, h.state, h.first, h.second, h.able1, h.able2)

pub record Time : Type 0 where
  pub clock : ℕ → ℕ
  pub readings : ℕ

abbrev pub time_of : Environment → Time
time_of e = record { clock = e.clock; readings = e.readings }

-- What the room expects once the input has been asked for.
pub record Asks (a b : Player) (w v : RoomWorld) : Type 0 where
  pub expects : Expects a b (w.env.clock w.env.readings) v
  pub time : time_of v.env ≡ record { clock = w.env.clock; readings = suc w.env.readings }
  pub config : v.room.config ≡ w.room.config

-- A draw leaves the clock.
drawn :
    (d : GameDifficulty) (e : Environment) → time_of (get_random_gameplay_input d e).1 ≡ time_of e
unfolding get_random_gameplay_input
drawn d e = ground arith

request_input-Asks :
    (a b : Player) (w : RoomWorld)
    → w.room.player1 ≡ some a
    → w.room.player2 ≡ some b
    → a.input_pressed ≡ none
    → b.input_pressed ≡ none
    → Asks a b w (request_input w).1
unfolding request_input broadcast_gameplay_message notify publish_gameplay_message
request_input-Asks a b w first second quiet1 quiet2 =
    ground (arith, drawn w.room.config.difficulty (record w.env { readings = suc w.env.readings }))

one_played-idle :
    (a b : Player) (since : ℕ) (w : RoomWorld)
    → Expects a b since w
    → (handle_one_player_played w).1 ≡ w
unfolding handle_one_player_played
one_played-idle a b since w h = ground (arith, h.state, h.first, h.second)

pub starting-Asks :
    (a b : Player) (since elapsed d : ℕ) (w : RoomWorld)
    → Starts a b since w
    → w.room.config.seconds_before_input_request ≡ pos d
    → w.env.clock w.env.readings ≡ since + elapsed
    → elapsed < int_bound * nanoseconds
    → d * nanoseconds ≤ elapsed
    → Asks a b (at_reading (suc w.env.readings) w) (tick w).1
unfolding tick handle_everyone_can_play request_input_when_due get_seconds_since
starting-Asks a b since elapsed d w h delay shown small late =
    let (q, counted, low, high) = get_seconds_since_counts since elapsed w.env shown small in
    let enough : d ≤ q = omega arith in
    let v = at_reading (suc w.env.readings) w in
    let asks = request_input-Asks a b v h.first h.second h.quiet1 h.quiet2 in
    ground (
      arith,
      counted,
      h.state,
      h.first,
      h.second,
      h.able1,
      h.able2,
      asks,
      one_played-idle a b (v.env.clock v.env.readings) (request_input v).1 asks.expects,
    )
