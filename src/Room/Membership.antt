-- ===== src/Room/Membership.antt =====
-- Room::addPlayer and Room::removePlayer of gameplay/Room/Room.cpp.
use samurai_kirby_server.Prelude.{ℕ, String, Option, none, some}
use samurai_kirby_server.Exec.{Exec, pure, gets, ◌>>=◌, ◌>>◌}
use samurai_kirby_server.Player.{
  PlayerAssignment, Player, PlayerLobbyDto, north, new_player, reset_to_replay, build_lobby_dto,
}
use samurai_kirby_server.Messages.{room_joined, player_joined_room, player_left_room}
use samurai_kirby_server.Environment.{
  room_at, room_callback, publish_gameplay_message, subscribe_to_player_action_messages,
  unsubscribe_to_player_action_messages,
}
use samurai_kirby_server.Room.State.{
  RoomWorld, waiting_players, players, set_players, on_room, on_env, set_state, player_at, notify,
  broadcast_gameplay_message,
}
use samurai_kirby_server.Room.Queries.{get_player_by_id, get_available_assignment}
use samurai_kirby_server.Room.Ticks.{other}

abbrev lobby_dto : Option Player → Option PlayerLobbyDto
lobby_dto none = none
lobby_dto (some p) = some (build_lobby_dto p)

-- addPlayer once a slot is found.
unfoldable pub add_player_at : ℕ → String → PlayerAssignment → Exec RoomWorld (Unit {0})
unfolding new_player build_lobby_dto
add_player_at id nickname assignment = do
  let player = new_player id nickname assignment
  on_room (λ r. set_players r assignment (some player))
  other_player ← gets (λ w. players w.room (other assignment))
  on_env (publish_gameplay_message id (room_joined assignment (lobby_dto other_player)))
  on_env (notify other_player (player_joined_room (build_lobby_dto player)))
  address ← gets (λ w. w.room.address)
  on_env (subscribe_to_player_action_messages id (room_callback address) (room_at address))

unfoldable pub add_player : ℕ → String → Exec RoomWorld (Unit {0})
add_player id nickname = do
  available ← gets (λ w. get_available_assignment w.room)
  elim available [ none ↦ pure tt | some assignment ↦ add_player_at id nickname assignment ]

abbrev reset_player : Option Player → Option Player
reset_player none = none
reset_player (some p) = some (reset_to_replay p)

-- removePlayer once the player is found, in the slot that the pointer points into. The source reads
-- the player's id and assignment again after it has emptied the slot: they are read here before.
unfoldable pub remove_player_at : PlayerAssignment → Exec RoomWorld (Unit {0})
unfolding reset_to_replay
remove_player_at slot = do
  player ← player_at slot
  on_room (λ r. record r {
    player1 = reset_player r.player1;
    player2 = reset_player r.player2;
    expected_input = north;
    everyone_can_play_at = none;
    ready_for_input_at = none;
  })
  on_room (λ r. set_players r player.assignment none)
  set_state waiting_players
  address ← gets (λ w. w.room.address)
  on_env (unsubscribe_to_player_action_messages player.id (room_at address))
  broadcast_gameplay_message (player_left_room player.assignment)

unfoldable pub remove_player : ℕ → Exec RoomWorld (Unit {0})
remove_player id = do
  player ← gets (λ w. get_player_by_id id w.room)
  elim player [ none ↦ pure tt | some slot ↦ remove_player_at slot ]
