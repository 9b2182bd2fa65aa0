-- ===== src/Room/Actions.antt =====
-- Room::handlePlayerMessage of gameplay/Room/Room.cpp and the handlers of the player actions.
use samurai_kirby_server.Prelude.{ℕ, none, some, Bool, true, not, ℤ, if◌then◌else◌}
use samurai_kirby_server.Exec.{Exec, pure, gets, ◌>>=◌, ◌>>◌}
use samurai_kirby_server.Player.{PlayerAssignment, GameplayInput}
use samurai_kirby_server.Messages.{
  PlayerActionMessage, join_game, set_ready_state, notify_can_play, player_input,
  set_replay_ready_state, leave_game, player_ready_state_changed, player_replay_ready_state_changed,
}
use samurai_kirby_server.Environment.{get_time_now}
use samurai_kirby_server.Room.State.{
  RoomWorld, waiting_players, is_in_state, in_env, player_at, change_player,
  broadcast_gameplay_message,
}
use samurai_kirby_server.Room.Queries.{get_player_by_id}
use samurai_kirby_server.Room.Membership.{remove_player}

unfoldable pub handle_player_set_ready_state_message :
    PlayerAssignment → Bool → Exec RoomWorld (Unit {0})
unfolding broadcast_gameplay_message
handle_player_set_ready_state_message slot is_ready = do
  r ← gets (λ w. w.room)
  if not (is_in_state waiting_players r) then pure tt else do
    change_player slot (λ p. record p { is_ready = is_ready })
    player ← player_at slot
    broadcast_gameplay_message (player_ready_state_changed player.assignment player.is_ready)

unfoldable pub handle_player_notify_can_play_message : PlayerAssignment → Exec RoomWorld (Unit {0})
handle_player_notify_can_play_message slot = change_player slot (λ p. record p { can_play = true })

unfoldable pub handle_player_input_message :
    PlayerAssignment → GameplayInput → ℤ → Exec RoomWorld (Unit {0})
unfolding get_time_now
handle_player_input_message slot input_pressed time_to_press = do
  change_player slot
      (λ p. record p { input_pressed = some input_pressed; time_to_press = some time_to_press })
  now ← in_env get_time_now
  change_player slot (λ p. record p { input_pressed_at_server_time = some now })

unfoldable pub handle_player_set_replay_ready_state_message :
    PlayerAssignment → Bool → Exec RoomWorld (Unit {0})
unfolding broadcast_gameplay_message
handle_player_set_replay_ready_state_message slot is_ready_to_replay = do
  change_player slot (λ p. record p { is_ready_to_replay = is_ready_to_replay })
  player ← player_at slot
  broadcast_gameplay_message
      (player_replay_ready_state_changed player.assignment player.is_ready_to_replay)

unfoldable pub handle_player_leave_game_message : PlayerAssignment → Exec RoomWorld (Unit {0})
unfolding remove_player
handle_player_leave_game_message slot = do player ← player_at slot; remove_player player.id

-- The switch of handlePlayerMessage.
unfoldable pub dispatch_action : PlayerActionMessage → PlayerAssignment → Exec RoomWorld (Unit {0})
unfolding handle_player_set_ready_state_message handle_player_notify_can_play_message
    handle_player_input_message handle_player_set_replay_ready_state_message
    handle_player_leave_game_message
dispatch_action (set_ready_state is_ready) slot =
    handle_player_set_ready_state_message slot is_ready
dispatch_action notify_can_play slot = handle_player_notify_can_play_message slot
dispatch_action (player_input input_pressed time_to_press) slot =
    handle_player_input_message slot input_pressed time_to_press
dispatch_action (set_replay_ready_state is_ready_to_replay) slot =
    handle_player_set_replay_ready_state_message slot is_ready_to_replay
dispatch_action leave_game slot = handle_player_leave_game_message slot
dispatch_action (join_game nickname difficulty) slot = pure tt

unfoldable pub handle_player_message : ℕ → PlayerActionMessage → Exec RoomWorld (Unit {0})
unfolding dispatch_action
handle_player_message id message = do
  player ← gets (λ w. get_player_by_id id w.room)
  elim player [ none ↦ pure tt | some slot ↦ dispatch_action message slot ]
