-- ===== src/Room/Winning.antt =====
-- That the right button wins a game by Room::handlePlayerMessage and Room::tick of
-- gameplay/Room/Room.cpp alone.
use samurai_kirby_server.Prelude.{
  ℕ, suc, subst, sym, Option, has_value, ◌*◌, ◌≤◌, ◌<◌, ◌≡◌, refl, none, some, true, pos, int_bound,
  ℤ, arith,
}
use samurai_kirby_server.Player.{PlayerAssignment, p1, p2, Player, GameplayInput, same_input}
use samurai_kirby_server.Messages.{player_input}
use samurai_kirby_server.Environment.{nanoseconds}
use samurai_kirby_server.Room.State.{set_players, RoomWorld, expecting_input}
use samurai_kirby_server.Room.Queries.{get_player_by_id}
use samurai_kirby_server.Room.Validity.{IsSeated, IsValid}
use samurai_kirby_server.Room.Verdict.{Settles, win}
use samurai_kirby_server.Room.Game.{Hosts, send, pressed}
use samurai_kirby_server.Room.Actions.{handle_player_message}
use samurai_kirby_server.Room.Steady.{IsSteady}
use samurai_kirby_server.Room.Waiting.{ticks}
use samurai_kirby_server.Room.Answer.{answer_won}

ready_since : (o : Option ℕ) → has_value o ≡ true → (n : ℕ) × (o ≡ some n)
ready_since none h = ground arith
ready_since (some n) h = (n, refl)

IsSeated-pressed :
    (slot : PlayerAssignment) (p : Player) (input : GameplayInput) (time_to_press : ℤ) (at : ℕ)
    → IsSeated slot (some p)
    → IsSeated slot (some (pressed p input time_to_press at))
IsSeated-pressed slot p input time_to_press at s = (s.0, λ _. refl)

-- The room once the player in slot `p` has pressed.
abbrev after_press : PlayerAssignment → Player → RoomWorld → RoomWorld
after_press p q w = record w {
  room = set_players w.room p (some q);
  env = record w.env { readings = suc w.env.readings };
}

module _ (w : RoomWorld) (a b : Player) (input : GameplayInput) (time_to_press : ℤ)
    (hosts : Hosts w a b) where
  abbrev now : ℕ
  now = w.env.clock w.env.readings

  send-first :
      send a.id (player_input input time_to_press) w
      ≡ after_press p1 (pressed a input time_to_press now) w
  unfolding handle_player_message get_player_by_id
  send-first = ground (arith, hosts.first, hosts.second)

  send-second :
      send b.id (player_input input time_to_press) w
      ≡ after_press p2 (pressed b input time_to_press now) w
  unfolding handle_player_message get_player_by_id
  send-second = ground (arith, hosts.first, hosts.second, hosts.distinct)

-- If a valid room with two different players expects an input and has none yet, the clock never goes
-- back, `m` readings of it take a second or more and each is at most `step` after the one ahead of
-- it, the time that the room leaves to the other player is `t` seconds, and `step`, once for each of
-- the readings of these and once more, is less than 2^31 seconds, then a player who sends the right
-- button wins by ticks alone: as many as the readings of `t` seconds and one more are enough, nothing
-- but the state of the room changes in them, and the hub is then as after the announcement of that
-- verdict to both. So for either player.
pub right_press_wins :
    (m step t : ℕ) (w : RoomWorld) (a b : Player) (input : GameplayInput) (time_to_press : ℤ)
    → Hosts w a b
    → IsValid w.room
    → w.room.gameplay_state ≡ expecting_input
    → a.input_pressed ≡ none
    → b.input_pressed ≡ none
    → same_input input w.room.expected_input ≡ true
    → w.room.config.one_player_input_only_timeout ≡ pos t
    → IsSteady w.env.clock m step
    → suc (t * m) * step < int_bound * nanoseconds
    → let at = w.env.clock w.env.readings in
      let v = send a.id (player_input input time_to_press) w in
      let u = send b.id (player_input input time_to_press) w in
      ((n : ℕ) × (n ≤ t * m)
        × Settles (win p1) (pressed a input time_to_press at) b v (ticks (suc n) v))
      × ((n : ℕ) × (n ≤ t * m)
          × Settles (win p2) a (pressed b input time_to_press at) u (ticks (suc n) u))
right_press_wins m step t w a b input time_to_press hosts valid state quiet1 quiet2 right limit
      steady small =
    let at = w.env.clock w.env.readings in
    let a' = pressed a input time_to_press at in
    let b' = pressed b input time_to_press at in
    let seated1 = subst (IsSeated p1) hosts.first valid.seated1 in
    let seated2 = subst (IsSeated p2) hosts.second valid.seated2 in
    let (ready_at, ready) =
      ready_since w.room.ready_for_input_at (valid.ready_when_expecting state) in
    (
      subst (λ v. (n : ℕ) × (n ≤ t * m) × Settles (win p1) a' b v (ticks (suc n) v))
          (sym (send-first w a b input time_to_press hosts))
          (answer_won m step w.env.readings t (after_press p1 a' w) steady refl p1 a' b input
            (record {
              state = state;
              first = refl;
              second = hosts.second;
              answer = refl;
              at = refl;
              right = right;
              idle = quiet2;
              ready_at = ready_at;
              ready = ready;
              seated1 = IsSeated-pressed p1 a input time_to_press at seated1;
              seated2 = seated2;
            })
            limit small),
      subst (λ v. (n : ℕ) × (n ≤ t * m) × Settles (win p2) a b' v (ticks (suc n) v))
          (sym (send-second w a b input time_to_press hosts))
          (answer_won m step w.env.readings t (after_press p2 b' w) steady refl p2 a b' input
            (record {
              state = state;
              first = hosts.first;
              second = refl;
              answer = refl;
              at = refl;
              right = right;
              idle = quiet1;
              ready_at = ready_at;
              ready = ready;
              seated1 = seated1;
              seated2 = IsSeated-pressed p2 b input time_to_press at seated2;
            })
            limit small),
    )
