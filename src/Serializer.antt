-- ===== src/Serializer.antt =====
-- network/serializer: SerializeGameplayMessage.cpp, deserializePlayerActionMessage.cpp and
-- Serializer.h, over any JSON library.
pub mod Interface
pub mod Contract
pub mod Actions
pub mod Announcements
mod Examples
use samurai_kirby_server.Prelude.{
  ℕ, String, Option, none, some, Bool, ℤ, pos, List, [], ◌∷◌, ◌==◌, if◌then◌else◌,
}
use samurai_kirby_server.Player.{
  PlayerAssignment, p1, p2, GameplayInput, north, west, east, south, input_of, GameDifficulty, easy,
  medium, hard, difficulty_of, input_value, PlayerLobbyDto, PlayerGameResultDto,
}
use samurai_kirby_server.Messages.{
  GameResultDto, GameplayMessage, gameplay_message_type, room_joined, player_joined_room,
  player_left_room, player_ready_state_changed, all_ready_game_starting, game_expecting_input,
  game_over_early_input, game_over_wrong_input, game_over_win, game_over_draw,
  player_replay_ready_state_changed, all_replay_ready_game_starting, PlayerActionMessage, join_game,
  set_ready_state, notify_can_play, player_input, set_replay_ready_state, leave_game,
}
use samurai_kirby_server.Json.{JsonLibrary}

-- How a call ends: with a value, with the SerializeException or DeserializeException that stands
-- for the library's exception, or with the exception for an unhandled type.
pub data Outcome (A : Type 0) : Type 0 where
  done : A → Outcome A
  json_exception : Outcome A
  not_handled : Outcome A

-- The `try` of both functions.
abbrev pub catch_json : {A : Type 0} → Option (Outcome A) → Outcome A
catch_json none = json_exception
catch_json (some o) = o

infixl 5 ◌>>=◌
abbrev pub ◌>>=◌ : {A B : Type 0} → Option A → (A → Option B) → Option B
none >>= f = none
some a >>= f = f a

abbrev pub assignment_value : PlayerAssignment → ℕ
assignment_value p1 = 0
assignment_value p2 = 1

-- `static_cast` of a number to an enumeration.
unfoldable pub to_input : ℕ → GameplayInput
to_input n =
    if n == 0
    then north
    else if n == 1
    then west
    else if n == 2
    then east
    else if n == 3
    then south
    else input_of n

unfoldable pub to_difficulty : ℕ → GameDifficulty
to_difficulty n =
    if n == 0 then easy else if n == 1 then medium else if n == 2 then hard else difficulty_of n

module _ (L : JsonLibrary) where
  -- The conversions of an enumerator and of an optional: `json()` is null.
  abbrev pub enumerator : ℕ → L.Json
  enumerator n = L.number (pos n)

  abbrev pub optional : {A : Type 0} → (A → L.Json) → Option A → L.Json
  optional f none = L.null
  optional f (some a) = f a

  abbrev pub lobby_json : PlayerLobbyDto → L.Json
  lobby_json p = L.object (
      ("nickname", L.text p.nickname)
      ∷ ("assignment", enumerator (assignment_value p.assignment))
      ∷ ("isReady", L.boolean p.is_ready)
      ∷ [])

  abbrev pub player_result_json : PlayerGameResultDto → L.Json
  player_result_json p = L.object (
      ("assignment", enumerator (assignment_value p.assignment))
      ∷ ("inputPressed", optional (λ i. enumerator (input_value i)) p.input_pressed)
      ∷ ("timeToPress", optional L.number p.time_to_press)
      ∷ [])

  -- serializeGameResult
  unfoldable pub serialize_game_result : GameResultDto → L.Json
  serialize_game_result r = L.object (
      ("winningPlayer", optional (λ a. enumerator (assignment_value a)) r.winning_player)
      ∷ ("player1", player_result_json r.player1)
      ∷ ("player2", player_result_json r.player2)
      ∷ [])

  -- What each overload of `serialize` puts behind the `messageType`.
  unfoldable pub fields : GameplayMessage → List (String × L.Json)
  fields (room_joined assignment other_player) =
      ("playerAssignment", enumerator (assignment_value assignment))
      ∷ ("otherPlayer", optional lobby_json other_player)
      ∷ []
  fields (player_joined_room player) = ("player", lobby_json player) ∷ []
  fields (player_left_room assignment) =
      ("playerAssignment", enumerator (assignment_value assignment)) ∷ []
  fields (player_ready_state_changed assignment is_ready) =
      ("playerAssignment", enumerator (assignment_value assignment))
      ∷ ("isReady", L.boolean is_ready)
      ∷ []
  fields all_ready_game_starting = []
  fields (game_expecting_input input) = ("expectedInput", enumerator (input_value input)) ∷ []
  fields (game_over_early_input result) = ("gameResult", serialize_game_result result) ∷ []
  fields (game_over_wrong_input result) = ("gameResult", serialize_game_result result) ∷ []
  fields (game_over_win result) = ("gameResult", serialize_game_result result) ∷ []
  fields (game_over_draw result) = ("gameResult", serialize_game_result result) ∷ []
  fields (player_replay_ready_state_changed assignment is_ready_to_replay) =
      ("playerAssignment", enumerator (assignment_value assignment))
      ∷ ("isReadyToReplay", L.boolean is_ready_to_replay)
      ∷ []
  fields all_replay_ready_game_starting = []

  -- The document of an overload of `serialize`.
  abbrev pub message_json : GameplayMessage → L.Json
  message_json m = L.object (("messageType", enumerator (gameplay_message_type m)) ∷ fields m)

  abbrev returned : Option L.Text → Outcome L.Text
  returned none = json_exception
  returned (some t) = done t

  -- The switch has a case for each class: its default is not reached.
  unfoldable pub serialize_gameplay_message : GameplayMessage → Outcome L.Text
  serialize_gameplay_message m = returned (L.dump (message_json m))

  -- The deserialize functions of the classes.
  abbrev deserialize_join_game : L.Json → Option PlayerActionMessage
  deserialize_join_game j = do
    nickname_json ← L.at "nickname" j
    nickname ← L.get_text nickname_json
    difficulty_json ← L.at "difficulty" j
    difficulty ← L.get_enum difficulty_json
    some (join_game nickname (to_difficulty difficulty))

  abbrev deserialize_set_ready_state : L.Json → Option PlayerActionMessage
  deserialize_set_ready_state j = do
    is_ready_json ← L.at "isReady" j
    is_ready ← L.get_boolean is_ready_json
    some (set_ready_state is_ready)

  abbrev deserialize_notify_can_play : L.Json → Option PlayerActionMessage
  deserialize_notify_can_play j = some notify_can_play

  abbrev deserialize_input : L.Json → Option PlayerActionMessage
  deserialize_input j = do
    input_json ← L.at "inputPressed" j
    input ← L.get_enum input_json
    time_json ← L.at "timeToPress" j
    time ← L.get_int time_json
    some (player_input (to_input input) time)

  abbrev deserialize_set_replay_ready_state : L.Json → Option PlayerActionMessage
  deserialize_set_replay_ready_state j = do
    is_ready_json ← L.at "isReadyToReplay" j
    is_ready_to_replay ← L.get_boolean is_ready_json
    some (set_replay_ready_state is_ready_to_replay)

  abbrev deserialize_leave_game : L.Json → Option PlayerActionMessage
  deserialize_leave_game j = some leave_game

  abbrev finished : Option PlayerActionMessage → Option (Outcome PlayerActionMessage)
  finished none = none
  finished (some m) = some (done m)

  -- The switch on the `messageType`.
  unfoldable pub deserialize_as : ℕ → L.Json → Option (Outcome PlayerActionMessage)
  deserialize_as n j =
      if n == 0
      then finished (deserialize_join_game j)
      else if n == 1
      then finished (deserialize_set_ready_state j)
      else if n == 2
      then finished (deserialize_notify_can_play j)
      else if n == 3
      then finished (deserialize_input j)
      else if n == 4
      then finished (deserialize_set_replay_ready_state j)
      else if n == 5
      then finished (deserialize_leave_game j)
      else some not_handled

  unfoldable pub deserialize_player_action_message : L.Text → Outcome PlayerActionMessage
  deserialize_player_action_message t = catch_json (do
    j ← L.parse t
    type_json ← L.at "messageType" j
    message_type ← L.get_enum type_json
    deserialize_as message_type j)
