-- ===== src/Room/Ticks.antt =====
-- Room::tick of gameplay/Room/Room.cpp and the methods that it calls.
use samurai_kirby_server.Prelude.{
  ℕ, zero, suc, Option, none, some, ◌||◌, ◌&&◌, not, ltb, leb_ℤ, List, [], ◌∷◌, ◌==◌, if◌then◌else◌,
  has_value,
}
use samurai_kirby_server.Exec.{Exec, undefined_behaviour, pure, throw, value, gets, ◌>>=◌, ◌>>◌}
use samurai_kirby_server.Player.{
  PlayerAssignment, p1, p2, GameplayInput, north, west, east, south, GameDifficulty, same_input,
  difficulty_value, reset_to_replay, build_gameover_dto,
}
use samurai_kirby_server.Messages.{
  GameResultDto, all_ready_game_starting, game_expecting_input, game_over_early_input,
  game_over_wrong_input, game_over_win, game_over_draw, all_replay_ready_game_starting,
}
use samurai_kirby_server.Environment.{
  Environment, get_time_now, get_seconds_since, get_random_value_in_range,
}
use samurai_kirby_server.Room.State.{
  RoomWorld, GameplayState, waiting_players, started, expecting_input, over, is_in_state, in_env,
  on_room, set_state, player_at, change_player, broadcast_gameplay_message,
}
use samurai_kirby_server.Room.Queries.{
  is_everyone_ready, everyone_can_play, everyone_played, no_one_played, everyone_wants_to_replay,
}

-- The vector of getRandomGameplayInput, and `inputs[i]`.
abbrev inputs : List GameplayInput
inputs = south ∷ east ∷ west ∷ north ∷ []

abbrev input_at : ℕ → List GameplayInput → Exec Environment GameplayInput
input_at i [] = throw undefined_behaviour
input_at zero (x ∷ xs) = pure x
input_at (suc i) (x ∷ xs) = input_at i xs

-- getRandomGameplayInput
unfoldable pub get_random_gameplay_input : GameDifficulty → Exec Environment GameplayInput
unfolding get_random_value_in_range
get_random_gameplay_input difficulty =
    if difficulty_value difficulty == 1
    then (do i ← get_random_value_in_range 0 1; input_at i inputs)
    else if difficulty_value difficulty == 2
    then (do i ← get_random_value_in_range 0 3; input_at i inputs)
    else input_at 0 inputs

-- buildGameResultDTO
unfoldable pub build_game_result_dto : Option PlayerAssignment → Exec RoomWorld GameResultDto
unfolding build_gameover_dto
build_game_result_dto winning_player = do
  first ← player_at p1
  second ← player_at p2
  pure (record {
    winning_player = winning_player;
    player1 = build_gameover_dto first;
    player2 = build_gameover_dto second;
  })

unfoldable pub handle_everyone_ready : Exec RoomWorld (Unit {0})
unfolding is_everyone_ready broadcast_gameplay_message
handle_everyone_ready = do
  r ← gets (λ w. w.room)
  if not (is_in_state waiting_players r) || not (is_everyone_ready r)
      then pure tt
      else do set_state started; broadcast_gameplay_message all_ready_game_starting

-- `if (!everyoneCanPlayAt.has_value()) everyoneCanPlayAt = getTimeNow();`
unfoldable pub stamp_everyone_can_play : Exec RoomWorld (Unit {0})
unfolding get_time_now
stamp_everyone_can_play = do
  r ← gets (λ w. w.room)
  if has_value r.everyone_can_play_at
      then pure tt
      else do now ← in_env get_time_now; on_room (λ q. record q { everyone_can_play_at = some now })

-- What that leaves where there was no time yet.
abbrev pub stamped : RoomWorld → RoomWorld
stamped w = record w {
  room = record w.room { everyone_can_play_at = some (w.env.clock w.env.readings) };
  env = record w.env { readings = suc w.env.readings };
}

-- What handleEveryoneCanPlay does once the delay has passed.
unfoldable pub request_input : Exec RoomWorld (Unit {0})
unfolding get_time_now broadcast_gameplay_message
request_input = do
  set_state expecting_input
  now ← in_env get_time_now
  on_room (λ r. record r { ready_for_input_at = some now })
  difficulty ← gets (λ w. w.room.config.difficulty)
  input ← in_env (get_random_gameplay_input difficulty)
  on_room (λ r. record r { expected_input = input })
  broadcast_gameplay_message (game_expecting_input input)

-- The second `if` of handleEveryoneCanPlay.
unfoldable pub request_input_when_due : Exec RoomWorld (Unit {0})
unfolding get_seconds_since
request_input_when_due = do
  r ← gets (λ w. w.room)
  can_play_at ← value r.everyone_can_play_at
  seconds ← in_env (get_seconds_since can_play_at)
  if leb_ℤ r.config.seconds_before_input_request seconds then request_input else pure tt

unfoldable pub handle_everyone_can_play : Exec RoomWorld (Unit {0})
unfolding everyone_can_play stamp_everyone_can_play
handle_everyone_can_play = do
  r ← gets (λ w. w.room)
  if not (is_in_state started r) || not (everyone_can_play r)
      then pure tt
      else do stamp_everyone_can_play; request_input_when_due

-- `whoPlayed == P1 ? P2 : P1`
abbrev pub other : PlayerAssignment → PlayerAssignment
other p1 = p2
other p2 = p1

unfoldable pub handle_one_player_played : Exec RoomWorld (Unit {0})
unfolding everyone_played no_one_played build_game_result_dto get_seconds_since
    broadcast_gameplay_message
handle_one_player_played = do
  r ← gets (λ w. w.room)
  if not (is_in_state started r) && not (is_in_state expecting_input r)
      then pure tt
      else if everyone_played r || no_one_played r
      then pure tt
      else do
        first ← player_at p1
        let who_played = if has_value first.input_pressed then p1 else p2
        let who_did_not_play = other who_played
        if not (is_in_state expecting_input r)
            then (do
              set_state over
              result ← build_game_result_dto (some who_did_not_play)
              broadcast_gameplay_message (game_over_early_input result))
            else do
              player ← player_at who_played
              pressed ← value player.input_pressed
              if not (same_input pressed r.expected_input)
                  then (do
                    set_state over
                    result ← build_game_result_dto (some who_did_not_play)
                    broadcast_gameplay_message (game_over_wrong_input result))
                  else do
                    pressed_at ← value player.input_pressed_at_server_time
                    time_since_player_played ← in_env (get_seconds_since pressed_at)
                    if leb_ℤ r.config.one_player_input_only_timeout time_since_player_played
                        then (do
                          set_state over
                          result ← build_game_result_dto (some who_played)
                          broadcast_gameplay_message (game_over_win result))
                        else pure tt

unfoldable pub handle_everyone_played : Exec RoomWorld (Unit {0})
unfolding everyone_played build_game_result_dto broadcast_gameplay_message
handle_everyone_played = do
  r ← gets (λ w. w.room)
  if not (is_in_state expecting_input r)
      then pure tt
      else if not (everyone_played r)
      then pure tt
      else do
        set_state over
        first ← player_at p1
        first_pressed_at ← value first.input_pressed_at_server_time
        second ← player_at p2
        second_pressed_at ← value second.input_pressed_at_server_time
        if ltb first_pressed_at second_pressed_at
            then (do
              result ← build_game_result_dto (some p1)
              broadcast_gameplay_message (game_over_win result))
            else if ltb second_pressed_at first_pressed_at
            then (do
              result ← build_game_result_dto (some p2)
              broadcast_gameplay_message (game_over_win result))
            else do
              result ← build_game_result_dto none
              broadcast_gameplay_message (game_over_draw result)

unfoldable pub handle_timeout : Exec RoomWorld (Unit {0})
unfolding no_one_played build_game_result_dto get_seconds_since broadcast_gameplay_message
handle_timeout = do
  r ← gets (λ w. w.room)
  if not (is_in_state expecting_input r)
      then pure tt
      else if not (no_one_played r)
      then pure tt
      else do
        ready_at ← value r.ready_for_input_at
        seconds ← in_env (get_seconds_since ready_at)
        if leb_ℤ r.config.no_input_timeout seconds
            then (do
              result ← build_game_result_dto none
              broadcast_gameplay_message (game_over_draw result)
              set_state over)
            else pure tt

unfoldable pub handle_replay : Exec RoomWorld (Unit {0})
unfolding everyone_wants_to_replay reset_to_replay broadcast_gameplay_message
handle_replay = do
  r ← gets (λ w. w.room)
  if not (is_in_state over r) || not (everyone_wants_to_replay r) then pure tt else do
    change_player p1 reset_to_replay
    change_player p2 reset_to_replay
    on_room (λ q. record q {
      expected_input = north;
      everyone_can_play_at = none;
      ready_for_input_at = none;
    })
    broadcast_gameplay_message all_replay_ready_game_starting
    set_state started

-- The cases of tick's switch. The handlers are shut in it: a test names those that it runs.
unfoldable pub tick_in : GameplayState → Exec RoomWorld (Unit {0})
tick_in waiting_players = handle_everyone_ready
tick_in started = do handle_everyone_can_play; handle_one_player_played
tick_in expecting_input = do handle_one_player_played; handle_everyone_played; handle_timeout
tick_in over = handle_replay

unfoldable pub tick : Exec RoomWorld (Unit {0})
unfolding tick_in
tick w = tick_in w.room.gameplay_state w
