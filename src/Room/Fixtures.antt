-- ===== src/Room/Fixtures.antt =====
-- Players, rooms and an environment for the examples.
use samurai_kirby_server.Prelude.{◌*◌, refl, Option, none, some, true, false, [], pos, arith}
use samurai_kirby_server.Player.{p1, p2, Player, south, east, easy}
use samurai_kirby_server.Environment.{Environment}
use samurai_kirby_server.Room.State.{Room, RoomConfig, RoomWorld, GameplayState, expecting_input}
use samurai_kirby_server.Room.Queries.{is_full}
use samurai_kirby_server.Room.Validity.{IsValid, DrawsInRange}
use samurai_kirby_server.Room.Game.{Hosts, pressed}

-- A clock that moves on by a second with each reading, and draws that are the least allowed.
abbrev pub calm : Environment
calm = record {
  clock = λ n. n * 1000000000;
  readings = 7;
  random = λ n a b. a;
  draws = 0;
  connectivity_callback = none;
  subscriptions = [];
  hub = record {
    player_action_messages_by_player_id = [];
    gameplay_messages_by_player_id = [];
    player_connectivity_messages = [];
  };
}

pub calm-DrawsInRange : DrawsInRange calm
calm-DrawsInRange n a b h = (omega arith, omega arith)

abbrev pub quick : RoomConfig
quick = record {
  difficulty = easy;
  seconds_before_input_request = pos 5;
  no_input_timeout = pos 5;
  one_player_input_only_timeout = pos 1;
}

abbrev pub alice : Player
alice = record {
  id = 1;
  nickname = "alice";
  assignment = p1;
  is_ready = true;
  can_play = true;
  is_ready_to_replay = false;
  input_pressed = none;
  time_to_press = none;
  input_pressed_at_server_time = none;
}

abbrev pub bob : Player
bob = record alice { id = 2; nickname = "bob"; assignment = p2 }

abbrev pub room_of : GameplayState → Option Player → Option Player → Room
room_of state a b = record {
  address = 0;
  config = quick;
  gameplay_state = state;
  player1 = a;
  player2 = b;
  expected_input = south;
  everyone_can_play_at = some 6000000000;
  ready_for_input_at = some 6500000000;
}

abbrev pub playing : GameplayState → Player → Player → RoomWorld
playing state a b = record { room = room_of state (some a) (some b); env = calm }

-- A press of the wrong button.
abbrev pub hasty : Player
hasty = pressed alice east (pos 900) 6700000000

pub hosted : (state : GameplayState) → Hosts (playing state alice bob) alice bob
hosted state = record { first = refl; second = refl; distinct = omega arith }

pub playing-IsValid : IsValid (room_of expecting_input (some alice) (some bob))
unfolding is_full
playing-IsValid = ground arith
