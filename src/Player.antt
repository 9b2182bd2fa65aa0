-- ===== src/Player.antt =====
-- gameplay/Player/Player.h, Player.cpp, PlayerAssignment.h, PlayerDTO.h, and the enumerations of
-- gameplay/GameplayInput.h and gameplay/Room/GameDifficulty.h.
use samurai_kirby_server.Prelude.{ℕ, String, Option, none, Bool, true, false, ◌==◌, ℤ}

pub data PlayerAssignment : Type 0 where
  p1 p2 : PlayerAssignment

-- A variable of an unscoped enumeration can hold a value that has no enumerator: the JSON library
-- casts any number. `input_of n` is such a value.
pub data GameplayInput : Type 0 where
  north west east south : GameplayInput
  input_of : ℕ → GameplayInput

pub data GameDifficulty : Type 0 where
  easy medium hard : GameDifficulty
  difficulty_of : ℕ → GameDifficulty

-- The underlying integers, by which C++ compares.
abbrev pub input_value : GameplayInput → ℕ
input_value north = 0
input_value west = 1
input_value east = 2
input_value south = 3
input_value (input_of n) = n

abbrev pub difficulty_value : GameDifficulty → ℕ
difficulty_value easy = 0
difficulty_value medium = 1
difficulty_value hard = 2
difficulty_value (difficulty_of n) = n

abbrev pub same_input : GameplayInput → GameplayInput → Bool
same_input a b = input_value a == input_value b

abbrev pub same_difficulty : GameDifficulty → GameDifficulty → Bool
same_difficulty a b = difficulty_value a == difficulty_value b

pub record PlayerLobbyDto : Type 0 where
  pub nickname : String
  pub assignment : PlayerAssignment
  pub is_ready : Bool

pub record PlayerGameResultDto : Type 0 where
  pub assignment : PlayerAssignment
  pub input_pressed : Option GameplayInput
  pub time_to_press : Option ℤ

-- Times are nanoseconds of the server's clock; `time_to_press` is an int that the client sends.
pub record Player : Type 0 where
  pub id : ℕ
  pub nickname : String
  pub assignment : PlayerAssignment
  pub is_ready : Bool
  pub can_play : Bool
  pub is_ready_to_replay : Bool
  pub input_pressed : Option GameplayInput
  pub time_to_press : Option ℤ
  pub input_pressed_at_server_time : Option ℕ

-- The constructor.
unfoldable pub new_player : ℕ → String → PlayerAssignment → Player
new_player id nickname assignment = record {
  id = id;
  nickname = nickname;
  assignment = assignment;
  is_ready = false;
  can_play = false;
  is_ready_to_replay = false;
  input_pressed = none;
  time_to_press = none;
  input_pressed_at_server_time = none;
}

unfoldable pub reset_to_replay : Player → Player
reset_to_replay p = record p {
  is_ready = true;
  can_play = false;
  is_ready_to_replay = false;
  input_pressed = none;
  time_to_press = none;
}

unfoldable pub build_lobby_dto : Player → PlayerLobbyDto
build_lobby_dto p = record {
  nickname = p.nickname;
  assignment = p.assignment;
  is_ready = p.is_ready;
}

unfoldable pub build_gameover_dto : Player → PlayerGameResultDto
build_gameover_dto p = record {
  assignment = p.assignment;
  input_pressed = p.input_pressed;
  time_to_press = p.time_to_press;
}
