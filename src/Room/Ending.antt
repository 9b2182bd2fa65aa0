-- ===== src/Room/Ending.antt =====
-- The end of a game that nobody plays, by Room::tick of gameplay/Room/Room.cpp alone.
use samurai_kirby_server.Prelude.{
  ℕ, suc, ◌+◌, ◌*◌, ◌≤◌, ◌<◌, ◌≡◌, refl, sym, ap, subst, ◌∙◌, none, some, true, pos, int_bound,
  arith,
}
use samurai_kirby_server.Player.{Player}
use samurai_kirby_server.Environment.{nanoseconds}
use samurai_kirby_server.Room.State.{RoomWorld, started, over}
use samurai_kirby_server.Room.Ticks.{
  stamped, tick, handle_everyone_can_play, stamp_everyone_can_play,
}
use samurai_kirby_server.Room.Steady.{IsSteady}
use samurai_kirby_server.Room.Waiting.{at_reading, ticks, ticks-add, waits_out}
use samurai_kirby_server.Room.Idle.{
  Expects, Expects-at, Starts-at, expecting_waits, expecting_ends, Starts, starting_waits,
  starting-Asks, Asks,
}

-- The two delays of a game, of the input's time out and of the request for it.
expecting_over :
    (m step r t : ℕ) (a b : Player) (w : RoomWorld)
    → IsSteady w.env.clock m step
    → w.env.readings ≡ suc r
    → Expects a b (w.env.clock r) w
    → w.room.config.no_input_timeout ≡ pos t
    → suc (t * m) * step < int_bound * nanoseconds
    → (k : ℕ) × (k ≤ t * m) × ((ticks (suc k) w).room.gameplay_state ≡ over)
expecting_over m step r t a b w steady next h limit small =
    waits_out m step r t w steady next small (λ v. v.room.gameplay_state ≡ over)
      (λ x e few shown yet.
        expecting_waits a b (w.env.clock r) e t (at_reading x w)
          (Expects-at a b (w.env.clock r) x w h) limit few shown yet)
      (λ x e shown fits past.
        expecting_ends a b (w.env.clock r) e t (at_reading x w)
          (Expects-at a b (w.env.clock r) x w h) limit shown fits past)

-- The input has been asked for at some reading.
abbrev Asked : Player → Player → RoomWorld → RoomWorld → Type 0
Asked a b w v = (x : ℕ) × Asks a b (at_reading x w) v

starting-Asked :
    (m step r d : ℕ) (a b : Player) (w : RoomWorld)
    → IsSteady w.env.clock m step
    → w.env.readings ≡ suc r
    → Starts a b (w.env.clock r) w
    → w.room.config.seconds_before_input_request ≡ pos d
    → suc (d * m) * step < int_bound * nanoseconds
    → (k : ℕ) × (k ≤ d * m) × Asked a b w (ticks (suc k) w)
starting-Asked m step r d a b w steady next h delay small =
    waits_out m step r d w steady next small (Asked a b w)
      (λ x e few shown yet.
        starting_waits a b (w.env.clock r) e d (at_reading x w)
          (Starts-at a b (w.env.clock r) x w h) delay few shown yet)
      (λ x e shown fits past. (
        suc x,
        starting-Asks a b (w.env.clock r) e d (at_reading x w) (Starts-at a b (w.env.clock r) x w h)
            delay shown fits past,
      ))

Asked-over :
    (m step t : ℕ) (a b : Player) (w v : RoomWorld)
    → IsSteady w.env.clock m step
    → Asked a b w v
    → w.room.config.no_input_timeout ≡ pos t
    → suc (t * m) * step < int_bound * nanoseconds
    → (k : ℕ) × (k ≤ t * m) × ((ticks (suc k) v).room.gameplay_state ≡ over)
Asked-over m step t a b w v steady (x, asks) limit small =
    let same = sym (ap (λ q. q.clock) asks.time) in
    expecting_over m step x t a b v (subst (λ c. IsSteady c m step) same steady)
      (ap (λ q. q.readings) asks.time) (subst (λ c. Expects a b (c x) v) same asks.expects)
      (ap (λ c. c.no_input_timeout) asks.config ∙ limit) small

-- A game has just started when both players can play, which no tick has noted yet, and neither has
-- pressed a button.
pub record Begins (a b : Player) (w : RoomWorld) : Type 0 where
  pub state : w.room.gameplay_state ≡ started
  pub first : w.room.player1 ≡ some a
  pub second : w.room.player2 ≡ some b
  pub able1 : a.can_play ≡ true
  pub able2 : b.can_play ≡ true
  pub quiet1 : a.input_pressed ≡ none
  pub quiet2 : b.input_pressed ≡ none
  pub fresh : w.room.everyone_can_play_at ≡ none

Begins-Starts :
    (a b : Player) (w : RoomWorld)
    → Begins a b w
    → Starts a b (w.env.clock w.env.readings) (stamped w)
Begins-Starts a b w h = record {
  state = h.state;
  first = h.first;
  second = h.second;
  able1 = h.able1;
  able2 = h.able2;
  quiet1 = h.quiet1;
  quiet2 = h.quiet2;
  ready = refl;
}

tick_stamps : (a b : Player) (w : RoomWorld) → Begins a b w → tick w ≡ tick (stamped w)
unfolding tick handle_everyone_can_play stamp_everyone_can_play
tick_stamps a b w h = ground (arith, h.state, h.first, h.second, h.able1, h.able2, h.fresh)

-- If a game has just started, in which both players can play and neither has pressed a button, the
-- clock never goes back, `m` readings of it take a second or more and each is at most `step` after
-- the one ahead of it, the delays of the room are `d` and `t` seconds, and `step`, once for each of
-- the readings of `d` seconds, or of `t`, and once more, is less than 2^31 seconds, then ticks alone
-- end the game: as many as the readings of `d` and of `t` seconds and two more are enough.
pub game_ends :
    (m step d t : ℕ) (a b : Player) (w : RoomWorld)
    → Begins a b w
    → w.room.config.seconds_before_input_request ≡ pos d
    → w.room.config.no_input_timeout ≡ pos t
    → IsSteady w.env.clock m step
    → suc (d * m) * step < int_bound * nanoseconds
    → suc (t * m) * step < int_bound * nanoseconds
    → (n : ℕ) × (n ≤ d * m + t * m + 2) × ((ticks n w).room.gameplay_state ≡ over)
unfolding ticks
game_ends m step d t a b w h delay limit steady small1 small2 =
    let v = stamped w in
    let (j, few1, asked) =
      starting-Asked m step w.env.readings d a b v steady refl (Begins-Starts a b w h) delay
        small1 in
    let (k, few2, ended) = Asked-over m step t a b v (ticks (suc j) v) steady asked limit small2 in
    let same = ap (λ p. ticks j p.1) (tick_stamps a b w h) in
    (
      suc j + suc k,
      omega arith,
      ap (λ u. u.room.gameplay_state) (ticks-add (suc j) (suc k) w ∙ ap (ticks (suc k)) same)
          ∙ ended,
    )
