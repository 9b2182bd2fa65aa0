-- ===== src/Room/State.antt =====
-- The data of gameplay/Room/Room.h, and how the methods of Room.cpp reach it.
use samurai_kirby_server.Prelude.{ℕ, Bool, ◌==◌, Option, none, some, ℤ, pos}
use samurai_kirby_server.Exec.{Exec, ok, pure, ◌>>=◌, value}
use samurai_kirby_server.Player.{
  PlayerAssignment, p1, p2, GameplayInput, north, GameDifficulty, Player,
}
use samurai_kirby_server.Messages.{GameplayMessage}
use samurai_kirby_server.Environment.{
  Environment, publish_gameplay_message, get_random_value_in_range,
}

pub record RoomConfig : Type 0 where
  pub difficulty : GameDifficulty
  pub seconds_before_input_request : ℤ
  pub no_input_timeout : ℤ
  pub one_player_input_only_timeout : ℤ

-- `RoomConfig{difficulty}`, with the other arguments at their defaults.
unfoldable pub default_config : GameDifficulty → Exec Environment RoomConfig
unfolding get_random_value_in_range
default_config difficulty = do
  seconds ← get_random_value_in_range 5 10
  pure (record {
    difficulty = difficulty;
    seconds_before_input_request = pos seconds;
    no_input_timeout = pos 5;
    one_player_input_only_timeout = pos 1;
  })

pub data GameplayState : Type 0 where
  waiting_players started expecting_input over : GameplayState

-- `players` has two slots, and so two fields here; `address` is the room's `this`.
pub record Room : Type 0 where
  pub address : ℕ
  pub config : RoomConfig
  pub gameplay_state : GameplayState
  pub player1 : Option Player
  pub player2 : Option Player
  pub expected_input : GameplayInput
  pub everyone_can_play_at : Option ℕ
  pub ready_for_input_at : Option ℕ

-- The constructor. `expectedInput{}` is the enumerator of value 0.
unfoldable pub new_room : ℕ → RoomConfig → Room
new_room address config = record {
  address = address;
  config = config;
  gameplay_state = waiting_players;
  player1 = none;
  player2 = none;
  expected_input = north;
  everyone_can_play_at = none;
  ready_for_input_at = none;
}

-- `players[assignment]`
abbrev pub players : Room → PlayerAssignment → Option Player
players r p1 = r.player1
players r p2 = r.player2

abbrev pub set_players : Room → PlayerAssignment → Option Player → Room
set_players r p1 p = record r { player1 = p }
set_players r p2 p = record r { player2 = p }

-- A method of a room reads and writes the room and what is around it.
pub record RoomWorld : Type 0 where
  pub room : Room
  pub env : Environment

abbrev pub in_env : {A : Type 0} → Exec Environment A → Exec RoomWorld A
in_env m w = ((m w.env).0, record w { env = (m w.env).1 })

abbrev pub on_env : (Environment → Environment) → Exec RoomWorld (Unit {0})
on_env f w = (ok tt, record w { env = f w.env })

abbrev pub on_room : (Room → Room) → Exec RoomWorld (Unit {0})
on_room f w = (ok tt, record w { room = f w.room })

abbrev pub set_state : GameplayState → Exec RoomWorld (Unit {0})
set_state state = on_room (λ r. record r { gameplay_state = state })

-- `players[assignment].value()`
abbrev pub player_at : PlayerAssignment → Exec RoomWorld Player
player_at assignment w = value (players w.room assignment) w

-- A write through a `Player *` that points into `players`.
abbrev pub change_player : PlayerAssignment → (Player → Player) → Exec RoomWorld (Unit {0})
change_player assignment f = do
  player ← player_at assignment
  on_room (λ r. set_players r assignment (some (f player)))

-- The enumeration's integers, by which states are compared.
abbrev state_value : GameplayState → ℕ
state_value waiting_players = 0
state_value started = 1
state_value expecting_input = 2
state_value over = 3

abbrev pub is_in_state : GameplayState → Room → Bool
is_in_state state r = state_value r.gameplay_state == state_value state

-- Room::broadcastGameplayMessage
unfoldable pub notify : Option Player → GameplayMessage → Environment → Environment
notify none message e = e
notify (some p) message e = publish_gameplay_message p.id message e

unfoldable pub broadcast_gameplay_message : GameplayMessage → Exec RoomWorld (Unit {0})
broadcast_gameplay_message message w =
    on_env (λ e. notify w.room.player2 message (notify w.room.player1 message e)) w
