-- ===== src/Room/Input.antt =====
-- What no call of a room writes: the side of the broker that the network thread fills, the callback
-- for connections, the clock and the generator.
use samurai_kirby_server.Prelude.{ℕ, suc, String, ◌≡◌, ap, Option, List, arith}
use samurai_kirby_server.Player.{GameDifficulty}
use samurai_kirby_server.Messages.{PlayerActionMessage, PlayerConnectivityMessage}
use samurai_kirby_server.Environment.{
  Environment, Subscription, PlayerConnectivityCallback, publish_gameplay_message,
  subscribe_to_player_action_messages, unsubscribe_to_player_action_messages,
}
use samurai_kirby_server.Room.State.{
  RoomWorld, GameplayState, waiting_players, started, expecting_input, over, notify,
  broadcast_gameplay_message,
}
use samurai_kirby_server.Room.Queries.{get_player_by_id}
use samurai_kirby_server.Room.Ticks.{
  stamped, request_input, request_input_when_due, get_random_gameplay_input, handle_everyone_ready,
  handle_everyone_can_play, handle_one_player_played, handle_everyone_played, handle_timeout,
  handle_replay, tick_in, tick,
}
use samurai_kirby_server.Room.Membership.{
  add_player_at, remove_player_at, add_player, remove_player,
}
use samurai_kirby_server.Room.Actions.{handle_player_message}

pub record Input : Type 0 where
  pub actions : List (ℕ × List PlayerActionMessage)
  pub connectivity : List PlayerConnectivityMessage
  pub callback : Option PlayerConnectivityCallback
  pub clock : ℕ → ℕ
  pub random : ℕ → ℕ → ℕ → ℕ

abbrev pub input_of : Environment → Input
input_of e = record {
  actions = e.hub.player_action_messages_by_player_id;
  connectivity = e.hub.player_connectivity_messages;
  callback = e.connectivity_callback;
  clock = e.clock;
  random = e.random;
}

abbrev KeepsInput : RoomWorld → RoomWorld → Type 0
KeepsInput w v = input_of v.env ≡ input_of w.env

-- A tick does not write the map of callbacks either.
record Broker : Type 0 where
  pub input : Input
  pub subscriptions : List (ℕ × List Subscription)

abbrev broker_of : Environment → Broker
broker_of e = record { input = input_of e; subscriptions = e.subscriptions }

abbrev KeepsBroker : RoomWorld → RoomWorld → Type 0
KeepsBroker w v = broker_of v.env ≡ broker_of w.env

get_random_gameplay_input-broker :
    (d : GameDifficulty) (e : Environment)
    → broker_of (get_random_gameplay_input d e).1 ≡ broker_of e
unfolding get_random_gameplay_input
get_random_gameplay_input-broker d e = ground arith

request_input-broker : (w : RoomWorld) → KeepsBroker w (request_input w).1
unfolding request_input notify publish_gameplay_message
request_input-broker w = ground (
  arith,
  get_random_gameplay_input-broker w.room.config.difficulty
      (record w.env { readings = suc w.env.readings }),
)

request_input_when_due-broker : (w : RoomWorld) → KeepsBroker w (request_input_when_due w).1
unfolding request_input_when_due
request_input_when_due-broker w = ground (
  arith,
  request_input-broker (record w { env = record w.env { readings = suc w.env.readings } }),
)

can_play-broker : (w : RoomWorld) → KeepsBroker w (handle_everyone_can_play w).1
unfolding handle_everyone_can_play
can_play-broker w =
    ground (arith, request_input_when_due-broker w, request_input_when_due-broker (stamped w))

everyone_ready-broker : (w : RoomWorld) → KeepsBroker w (handle_everyone_ready w).1
unfolding handle_everyone_ready notify publish_gameplay_message
everyone_ready-broker w = ground arith

one_played-broker : (w : RoomWorld) → KeepsBroker w (handle_one_player_played w).1
unfolding handle_one_player_played notify publish_gameplay_message
one_played-broker w = ground arith

everyone_played-broker : (w : RoomWorld) → KeepsBroker w (handle_everyone_played w).1
unfolding handle_everyone_played notify publish_gameplay_message
everyone_played-broker w = ground arith

timeout-broker : (w : RoomWorld) → KeepsBroker w (handle_timeout w).1
unfolding handle_timeout notify publish_gameplay_message
timeout-broker w = ground arith

replay-broker : (w : RoomWorld) → KeepsBroker w (handle_replay w).1
unfolding handle_replay notify publish_gameplay_message
replay-broker w = ground arith

tick_in-broker : (g : GameplayState) (w : RoomWorld) → KeepsBroker w (tick_in g w).1
unfolding tick_in
tick_in-broker waiting_players w = everyone_ready-broker w
tick_in-broker started w =
    ground (arith, can_play-broker w, one_played-broker (handle_everyone_can_play w).1)
tick_in-broker expecting_input w = ground (
  arith,
  one_played-broker w,
  everyone_played-broker (handle_one_player_played w).1,
  timeout-broker (handle_everyone_played (handle_one_player_played w).1).1,
)
tick_in-broker over w = replay-broker w

pub tick-input : (w : RoomWorld) → KeepsInput w (tick w).1
unfolding tick
tick-input w = ap (λ (b : Broker). b.input) (tick_in-broker w.room.gameplay_state w)

pub tick-subscriptions : (w : RoomWorld) → (tick w).1.env.subscriptions ≡ w.env.subscriptions
unfolding tick
tick-subscriptions w = ap (λ (b : Broker). b.subscriptions) (tick_in-broker w.room.gameplay_state w)

pub add_player-input :
    (id : ℕ) (nickname : String) (w : RoomWorld) → KeepsInput w (add_player id nickname w).1
unfolding add_player add_player_at subscribe_to_player_action_messages notify
    publish_gameplay_message
add_player-input id nickname w = ground arith

pub remove_player-input : (id : ℕ) (w : RoomWorld) → KeepsInput w (remove_player id w).1
unfolding remove_player get_player_by_id remove_player_at unsubscribe_to_player_action_messages
    broadcast_gameplay_message notify publish_gameplay_message
remove_player-input id w = ground arith

pub handle_player_message-input :
    (id : ℕ) (message : PlayerActionMessage) (w : RoomWorld)
    → KeepsInput w (handle_player_message id message w).1
unfolding handle_player_message get_player_by_id remove_player_at
    unsubscribe_to_player_action_messages broadcast_gameplay_message notify publish_gameplay_message
handle_player_message-input id message w = ground arith
