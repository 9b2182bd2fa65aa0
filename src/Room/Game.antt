-- ===== src/Room/Game.antt =====
-- The course of a game: what a message of a player and the ticks after it come to, together.
use samurai_kirby_server.Prelude.{
  ℕ, suc, ◌≡◌, ◌≢◌, none, some, Bool, true, false, ◌&&◌, ℤ, if◌then◌else◌, arith,
}
use samurai_kirby_server.Player.{
  p1, p2, Player, GameplayInput, north, build_gameover_dto, reset_to_replay,
}
use samurai_kirby_server.Messages.{
  PlayerActionMessage, set_ready_state, set_replay_ready_state, player_input, game_over_early_input,
}
use samurai_kirby_server.Environment.{publish_gameplay_message}
use samurai_kirby_server.Room.State.{
  RoomWorld, waiting_players, started, expecting_input, over, notify,
}
use samurai_kirby_server.Room.Queries.{get_player_by_id}
use samurai_kirby_server.Room.Ticks.{
  handle_everyone_ready, handle_everyone_can_play, handle_one_player_played, handle_everyone_played,
  handle_timeout, handle_replay, tick,
}
use samurai_kirby_server.Room.Verdict.{Settles, judge_one, game_result, announce}
use samurai_kirby_server.Room.Validity.{ready_again}
use samurai_kirby_server.Room.Actions.{handle_player_message}

-- The room after a message of the player `id`.
abbrev pub send : ℕ → PlayerActionMessage → RoomWorld → RoomWorld
send id m w = (handle_player_message id m w).1

abbrev pub after_tick : RoomWorld → RoomWorld
after_tick w = (tick w).1

-- Two players sit in the room, under different ids.
pub record Hosts (w : RoomWorld) (a b : Player) : Type 0 where
  pub first : w.room.player1 ≡ some a
  pub second : w.room.player2 ≡ some b
  pub distinct : a.id ≢ b.id

-- In a room with two different players that waits, after each has said whether it is ready, in
-- either order, the next tick starts the game if both said yes, and leaves the room waiting if not.
pub starts_when_both_ready :
    (w : RoomWorld) (a b : Player) (x y : Bool)
    → Hosts w a b
    → w.room.gameplay_state ≡ waiting_players
    → ((after_tick
          (send b.id (set_ready_state y) (send a.id (set_ready_state x) w))).room.gameplay_state
        ≡ (if x && y then started else waiting_players))
      × ((after_tick
            (send a.id (set_ready_state x) (send b.id (set_ready_state y) w))).room.gameplay_state
          ≡ (if x && y then started else waiting_players))
unfolding tick handle_player_message get_player_by_id handle_everyone_ready
starts_when_both_ready w a b x y h g = ground arith

-- The player as it is once its input is in.
abbrev pub pressed : Player → GameplayInput → ℤ → ℕ → Player
pressed p input time_to_press at = record p {
  input_pressed = some input;
  time_to_press = some time_to_press;
  input_pressed_at_server_time = some at;
}

-- In a room with two different players whose game has started, in which not both can play and no
-- input is in, the one who sends an input loses: after the next tick the game is over and both are
-- told that the other has won by an early input. So for either player.
pub early_input_loses :
    (w : RoomWorld) (a b : Player) (input : GameplayInput) (time_to_press : ℤ)
    → Hosts w a b
    → w.room.gameplay_state ≡ started
    → a.can_play && b.can_play ≡ false
    → a.input_pressed ≡ none
    → b.input_pressed ≡ none
    → let now = w.env.clock w.env.readings in
      let a' = pressed a input time_to_press now in
      let b' = pressed b input time_to_press now in
      let v = after_tick (send a.id (player_input input time_to_press) w) in
      let u = after_tick (send b.id (player_input input time_to_press) w) in
      (v.room.gameplay_state ≡ over)
      × (v.env.hub
          ≡ (announce (some (game_over_early_input (game_result (some p2) a' b))) a' b w.env).hub)
      × (u.room.gameplay_state ≡ over)
      × (u.env.hub
          ≡ (announce (some (game_over_early_input (game_result (some p1) a b'))) a b' w.env).hub)
unfolding tick handle_player_message get_player_by_id handle_everyone_can_play
    handle_one_player_played notify publish_gameplay_message
early_input_loses w a b input time_to_press h g c na nb = ground arith

-- In a room with two different players that expects an input, has the time since when, and has none
-- yet, one player sends an input. The tick after it gives the game to the other player if the
-- button is wrong; if it is right, to the one who pressed once as many whole seconds have passed as
-- the other is left, and before that it decides nothing. So for either player.
pub first_input_Settles :
    (w : RoomWorld) (a b : Player) (input : GameplayInput) (time_to_press : ℤ) (ready : ℕ)
    → Hosts w a b
    → w.room.gameplay_state ≡ expecting_input
    → w.room.ready_for_input_at ≡ some ready
    → a.input_pressed ≡ none
    → b.input_pressed ≡ none
    → let pressed_at = w.env.clock w.env.readings in
      let now = w.env.clock (suc w.env.readings) in
      let v = send a.id (player_input input time_to_press) w in
      let u = send b.id (player_input input time_to_press) w in
      Settles
        (judge_one w.room.config w.room.expected_input p1 input (some pressed_at) now)
        (pressed a input time_to_press pressed_at)
        b
        v
        (after_tick v)
      × Settles
          (judge_one w.room.config w.room.expected_input p2 input (some pressed_at) now)
          a
          (pressed b input time_to_press pressed_at)
          u
          (after_tick u)
unfolding tick handle_player_message get_player_by_id handle_one_player_played
    handle_everyone_played handle_timeout build_gameover_dto notify publish_gameplay_message
first_input_Settles w a b input time_to_press ready h g r na nb = ground arith

-- In a room with two different players whose game is over, after both have asked for another, the
-- next tick starts it. Both players are ready, can not play yet, no longer ask for another game, and
-- have no input and no time to press; the time at which the server got the last input is all that
-- stays of the last game. The expected input and the two times of the room are cleared, and the rest
-- of the room is the same.
pub rematch_is_clean :
    (w : RoomWorld) (a b : Player)
    → Hosts w a b
    → w.room.gameplay_state ≡ over
    → let v =
        after_tick
          (send b.id (set_replay_ready_state true) (send a.id (set_replay_ready_state true) w)) in
      v.room ≡ record w.room {
        gameplay_state = started;
        player1 = some (ready_again a);
        player2 = some (ready_again b);
        expected_input = north;
        everyone_can_play_at = none;
        ready_for_input_at = none;
      }
unfolding tick handle_player_message get_player_by_id handle_replay reset_to_replay
rematch_is_clean w a b h g = ground arith

-- In a room with two different players that waits, in which both are ready, not both can play and
-- no input is in, an input of the first player is kept, and at the second tick after it the game
-- that has started is over.
pub stale_input_loses :
    (w : RoomWorld) (a b : Player) (input : GameplayInput) (time_to_press : ℤ)
    → Hosts w a b
    → w.room.gameplay_state ≡ waiting_players
    → a.is_ready && b.is_ready ≡ true
    → a.can_play && b.can_play ≡ false
    → a.input_pressed ≡ none
    → b.input_pressed ≡ none
    → (after_tick (after_tick (send a.id (player_input input time_to_press) w))).room.gameplay_state
      ≡ over
unfolding tick handle_player_message get_player_by_id handle_everyone_ready handle_everyone_can_play
    handle_one_player_played
stale_input_loses w a b input time_to_press h g rr c na nb = ground arith
