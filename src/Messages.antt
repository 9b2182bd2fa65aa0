-- ===== src/Messages.antt =====
-- messages/GameplayMessages.h, PlayerActionMessages.h, PlayerConnectivityMessage.h and
-- gameplay/Room/GameResultDTO.h. A class hierarchy with its `messageType` is a data type with a
-- constructor for each class; the number of the type is `message_type`.
use samurai_kirby_server.Prelude.{ℕ, String, Option, Bool, ℤ}
use samurai_kirby_server.Player.{
  PlayerAssignment, GameplayInput, GameDifficulty, PlayerLobbyDto, PlayerGameResultDto,
}

pub record GameResultDto : Type 0 where
  pub winning_player : Option PlayerAssignment
  pub player1 : PlayerGameResultDto
  pub player2 : PlayerGameResultDto

-- Server to client.
pub data GameplayMessage : Type 0 where
  room_joined : PlayerAssignment → Option PlayerLobbyDto → GameplayMessage
  player_joined_room : PlayerLobbyDto → GameplayMessage
  player_left_room : PlayerAssignment → GameplayMessage
  player_ready_state_changed : PlayerAssignment → Bool → GameplayMessage
  all_ready_game_starting : GameplayMessage
  game_expecting_input : GameplayInput → GameplayMessage
  game_over_early_input : GameResultDto → GameplayMessage
  game_over_wrong_input : GameResultDto → GameplayMessage
  game_over_win : GameResultDto → GameplayMessage
  game_over_draw : GameResultDto → GameplayMessage
  player_replay_ready_state_changed : PlayerAssignment → Bool → GameplayMessage
  all_replay_ready_game_starting : GameplayMessage

unfoldable pub gameplay_message_type : GameplayMessage → ℕ
gameplay_message_type (room_joined _ _) = 0
gameplay_message_type (player_joined_room _) = 1
gameplay_message_type (player_left_room _) = 2
gameplay_message_type (player_ready_state_changed _ _) = 3
gameplay_message_type all_ready_game_starting = 4
gameplay_message_type (game_expecting_input _) = 5
gameplay_message_type (game_over_early_input _) = 6
gameplay_message_type (game_over_wrong_input _) = 7
gameplay_message_type (game_over_win _) = 8
gameplay_message_type (game_over_draw _) = 9
gameplay_message_type (player_replay_ready_state_changed _ _) = 10
gameplay_message_type all_replay_ready_game_starting = 11

-- Client to server.
pub data PlayerActionMessage : Type 0 where
  join_game : String → GameDifficulty → PlayerActionMessage
  set_ready_state : Bool → PlayerActionMessage
  notify_can_play : PlayerActionMessage
  player_input : GameplayInput → ℤ → PlayerActionMessage
  set_replay_ready_state : Bool → PlayerActionMessage
  leave_game : PlayerActionMessage

unfoldable pub player_action_message_type : PlayerActionMessage → ℕ
player_action_message_type (join_game _ _) = 0
player_action_message_type (set_ready_state _) = 1
player_action_message_type notify_can_play = 2
player_action_message_type (player_input _ _) = 3
player_action_message_type (set_replay_ready_state _) = 4
player_action_message_type leave_game = 5

pub data PlayerConnectivityMessageType : Type 0 where
  connect disconnect : PlayerConnectivityMessageType

pub record PlayerConnectivityMessage : Type 0 where
  pub message_type : PlayerConnectivityMessageType
  pub player_id : ℕ
