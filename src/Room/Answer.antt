-- ===== src/Room/Answer.antt =====
-- A game in which one player presses the right button and the other does nothing more, by Room::tick
-- of gameplay/Room/Room.cpp alone.
use samurai_kirby_server.Prelude.{
  to_int, ℕ, suc, ap, subst, ◌+◌, ◌*◌, ◌≤◌, ◌<◌, ◌≡◌, none, some, true, pos, int_bound, arith,
}
use samurai_kirby_server.Exec.{ok}
use samurai_kirby_server.Player.{PlayerAssignment, p1, p2, Player, GameplayInput, same_input}
use samurai_kirby_server.Environment.{
  Environment, seconds_between, publish_gameplay_message, nanoseconds, get_seconds_since,
  get_time_now,
}
use samurai_kirby_server.Room.State.{notify, RoomWorld, expecting_input}
use samurai_kirby_server.Room.Ticks.{
  other, handle_one_player_played, handle_everyone_played, handle_timeout, tick,
}
use samurai_kirby_server.Room.Validity.{IsSeated}
use samurai_kirby_server.Room.Timing.{get_seconds_since_counts}
use samurai_kirby_server.Room.Verdict.{Settles, judge, win, tick-Settles}
use samurai_kirby_server.Room.Steady.{IsSteady}
use samurai_kirby_server.Room.Waiting.{at_reading, ticks, waits_out}

abbrev pub seat : PlayerAssignment → Player → Player → Player
seat p1 a b = a
seat p2 a b = b

-- The player in slot `p` alone has pressed a button, the right one, at `since`.
pub record Answers (p : PlayerAssignment) (a b : Player) (i : GameplayInput) (since : ℕ)
    (w : RoomWorld) : Type 0 where
  pub state : w.room.gameplay_state ≡ expecting_input
  pub first : w.room.player1 ≡ some a
  pub second : w.room.player2 ≡ some b
  pub answer : (seat p a b).input_pressed ≡ some i
  pub at : (seat p a b).input_pressed_at_server_time ≡ some since
  pub right : same_input i w.room.expected_input ≡ true
  pub idle : (seat (other p) a b).input_pressed ≡ none
  pub ready_at : ℕ
  pub ready : w.room.ready_for_input_at ≡ some ready_at
  pub seated1 : IsSeated p1 (some a)
  pub seated2 : IsSeated p2 (some b)

-- The count of the seconds since a press, and the reading of the clock that it takes.
counted :
    (since elapsed : ℕ) (e : Environment)
    → e.clock e.readings ≡ since + elapsed
    → elapsed < int_bound * nanoseconds
    → (q : ℕ) × (get_seconds_since since e ≡ (ok (pos q), record e { readings = suc e.readings }))
      × (q * nanoseconds ≤ elapsed)
      × (elapsed < suc q * nanoseconds)
unfolding get_seconds_since
counted since elapsed e shown small =
    let (q, same, low, high) = get_seconds_since_counts since elapsed e shown small in
    (q, ap (λ r. (r, record e { readings = suc e.readings })) same, low, high)

-- What the handlers of a tick come to while the time that is left to the other player runs.
one_played-waits :
    (p : PlayerAssignment) (a b : Player) (i : GameplayInput) (since q t : ℕ) (w : RoomWorld)
    → Answers p a b i since w
    → w.room.config.one_player_input_only_timeout ≡ pos t
    → get_seconds_since since w.env ≡ (ok (pos q), record w.env { readings = suc w.env.readings })
    → q < t
    → handle_one_player_played w ≡ (ok tt, at_reading (suc w.env.readings) w)
unfolding handle_one_player_played
one_played-waits p1 a b i since q t w h limit shown fewer =
    ground (arith, h.state, h.first, h.second, h.answer, h.at, h.right, h.idle)
one_played-waits p2 a b i since q t w h limit shown fewer =
    ground (arith, h.state, h.first, h.second, h.answer, h.at, h.right, h.idle)

everyone_played-idle :
    (p : PlayerAssignment) (a b : Player) (i : GameplayInput) (since : ℕ) (w : RoomWorld)
    → Answers p a b i since w
    → handle_everyone_played w ≡ (ok tt, w)
unfolding handle_everyone_played
everyone_played-idle p1 a b i since w h =
    ground (arith, h.state, h.first, h.second, h.answer, h.idle)
everyone_played-idle p2 a b i since w h =
    ground (arith, h.state, h.first, h.second, h.answer, h.idle)

timeout-idle :
    (p : PlayerAssignment) (a b : Player) (i : GameplayInput) (since : ℕ) (w : RoomWorld)
    → Answers p a b i since w
    → handle_timeout w ≡ (ok tt, w)
unfolding handle_timeout
timeout-idle p1 a b i since w h = ground (arith, h.state, h.first, h.second, h.answer, h.idle)
timeout-idle p2 a b i since w h = ground (arith, h.state, h.first, h.second, h.answer, h.idle)

Answers-at :
    (p : PlayerAssignment) (a b : Player) (i : GameplayInput) (since x : ℕ) (w : RoomWorld)
    → Answers p a b i since w
    → Answers p a b i since (at_reading x w)
Answers-at p a b i since x w h = record {
  state = h.state;
  first = h.first;
  second = h.second;
  answer = h.answer;
  at = h.at;
  right = h.right;
  idle = h.idle;
  ready_at = h.ready_at;
  ready = h.ready;
  seated1 = h.seated1;
  seated2 = h.seated2;
}

answer_waits :
    (p : PlayerAssignment) (a b : Player) (i : GameplayInput) (since elapsed t : ℕ) (w : RoomWorld)
    → Answers p a b i since w
    → w.room.config.one_player_input_only_timeout ≡ pos t
    → t < int_bound
    → w.env.clock w.env.readings ≡ since + elapsed
    → elapsed < t * nanoseconds
    → (tick w).1 ≡ at_reading (suc w.env.readings) w
unfolding tick
answer_waits p a b i since elapsed t w h limit small shown early =
    let (q, same, low, high) = counted since elapsed w.env shown (omega arith) in
    let v = at_reading (suc w.env.readings) w in
    let h' = Answers-at p a b i since (suc w.env.readings) w h in
    ground (
      arith,
      h.state,
      one_played-waits p a b i since q t w h limit same (omega arith),
      everyone_played-idle p a b i since v h',
      timeout-idle p a b i since v h',
    )

counted-seconds :
    (since q : ℕ) (e : Environment)
    → (get_seconds_since since e).0 ≡ ok (pos q)
    → to_int (seconds_between since (e.clock e.readings)) ≡ pos q
unfolding get_seconds_since get_time_now
counted-seconds since q e h = cc

judge-win :
    (p : PlayerAssignment) (a b : Player) (i : GameplayInput) (since q t now : ℕ) (w : RoomWorld)
    → Answers p a b i since w
    → w.room.config.one_player_input_only_timeout ≡ pos t
    → to_int (seconds_between since now) ≡ pos q
    → t ≤ q
    → judge w.room a b now ≡ win p
judge-win p1 a b i since q t now w h limit same enough =
    ground (arith, h.answer, h.at, h.right, h.idle)
judge-win p2 a b i since q t now w h limit same enough =
    ground (arith, h.answer, h.at, h.right, h.idle)

answer_wins :
    (p : PlayerAssignment) (a b : Player) (i : GameplayInput) (since elapsed t : ℕ) (w : RoomWorld)
    → Answers p a b i since w
    → w.room.config.one_player_input_only_timeout ≡ pos t
    → w.env.clock w.env.readings ≡ since + elapsed
    → elapsed < int_bound * nanoseconds
    → t * nanoseconds ≤ elapsed
    → Settles (win p) a b w (tick w).1
answer_wins p a b i since elapsed t w h limit shown small late =
    let (q, same, low, high) = get_seconds_since_counts since elapsed w.env shown small in
    let now = w.env.clock w.env.readings in
    let verdict =
      judge-win p a b i since q t now w h limit (counted-seconds since q w.env same)
        (omega arith) in
    subst (λ v. Settles v a b w (tick w).1) verdict
      (tick-Settles w a b h.ready_at h.state h.first h.second h.ready h.seated1 h.seated2)

module _ (m step r t : ℕ) (w : RoomWorld) (steady : IsSteady w.env.clock m step)
    (next : w.env.readings ≡ suc r) (p : PlayerAssignment) (a b : Player) (i : GameplayInput)
    (h : Answers p a b i (w.env.clock r) w)
    (limit : w.room.config.one_player_input_only_timeout ≡ pos t)
    (small : suc (t * m) * step < int_bound * nanoseconds) where
  settled_at :
      (x : ℕ) (v : RoomWorld) → Settles (win p) a b (at_reading x w) v → Settles (win p) a b w v
  unfolding notify publish_gameplay_message
  settled_at x v s = record { room = s.room; hub = s.hub }

  -- The player in slot `p` wins after as many ticks as the readings of `t` seconds and one more, or before.
  pub answer_won : (k : ℕ) × (k ≤ t * m) × Settles (win p) a b w (ticks (suc k) w)
  answer_won =
      waits_out m step r t w steady next small (λ v. Settles (win p) a b w v)
        (λ x e few shown yet.
          answer_waits p a b i (w.env.clock r) e t (at_reading x w)
            (Answers-at p a b i (w.env.clock r) x w h) limit few shown yet)
        (λ x e shown fits past. settled_at x (tick (at_reading x w)).1 (
          answer_wins p a b i (w.env.clock r) e t (at_reading x w)
            (Answers-at p a b i (w.env.clock r) x w h) limit shown fits past))
