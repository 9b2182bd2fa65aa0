-- ===== src/Gameplay.antt =====
-- gameplay/Gameplay.cpp, and GameplayMessageBroker::dispatchMessages of
-- messages/GameplayMessageBroker.cpp with the callbacks that it calls. What the network thread puts
-- into the hub comes between two rounds here.
pub mod Subscriptions
pub mod Newcomers
pub mod Calls
pub mod Draining
pub mod Stale
pub mod Dispatch
pub mod Loops
pub mod Links
pub mod Staying
pub mod Ticking
pub mod Rounds
pub mod Termination
pub mod Bystanders
pub mod Strangers
mod Examples
use samurai_kirby_server.Prelude.{ℕ, Option, none, some, List, [], ◌∷◌, map, ◌==◌}
use samurai_kirby_server.Prelude.UnorderedMap
use samurai_kirby_server.Exec.{
  Exec, Exception, bad_optional_access, bad_function_call, undefined_behaviour, runtime_error,
  serialize_exception, Result, ok, err, pure, throw, gets, ◌>>=◌, ◌>>◌,
}
use samurai_kirby_server.Messages.{
  PlayerActionMessage, PlayerConnectivityMessage, PlayerConnectivityMessageType, connect,
  disconnect,
}
use samurai_kirby_server.Environment.{
  Environment, gameplay, PlayerConnectivityCallback, gameplay_callback,
  subscribe_to_player_connectivity_messages, PlayerActionCallback, manager_callback, room_callback,
  Subscription, subscribe_to_player_action_messages, unsubscribe_to_player_action_messages,
}
use samurai_kirby_server.Room.Actions
use samurai_kirby_server.RoomManager
use samurai_kirby_server.RoomManager.{
  Lobby, find_if, in_place, remove_player_from_room, tick_all_rooms,
}

-- The class Gameplay: its room manager, and in `env` the broker that both refer to.
abbrev pub Gameplay : Type 0
Gameplay = Lobby

-- The constructors of RoomManager and Gameplay.
unfoldable pub new_room_manager : Environment → Lobby
new_room_manager e = record { rooms = []; next_address = 0; env = e }

unfoldable pub new_gameplay : Environment → Gameplay
unfolding new_room_manager subscribe_to_player_connectivity_messages
new_gameplay e = new_room_manager (subscribe_to_player_connectivity_messages gameplay_callback e)

abbrev pub on_env : (Environment → Environment) → Exec Lobby (Unit {0})
on_env f l = (ok tt, record l { env = f l.env })

-- Gameplay::handlePlayerConnectivityMessage
unfoldable pub handle_player_connectivity_message :
    PlayerConnectivityMessageType → ℕ → Exec Lobby (Unit {0})
handle_player_connectivity_message connect player_id =
    on_env (subscribe_to_player_action_messages player_id manager_callback gameplay)
handle_player_connectivity_message disconnect player_id = do
  remove_player_from_room player_id
  on_env (unsubscribe_to_player_action_messages player_id gameplay)

abbrev pub set_connectivity : List PlayerConnectivityMessage → Environment → Environment
set_connectivity queue e = record e { hub = record e.hub { player_connectivity_messages = queue } }

-- The call of the callback that the constructor of Gameplay subscribes.
abbrev pub call_connectivity :
    Option PlayerConnectivityCallback → PlayerConnectivityMessage → Exec Lobby (Unit {0})
call_connectivity none m = throw bad_function_call
call_connectivity (some gameplay_callback) m =
    handle_player_connectivity_message m.message_type m.player_id

-- The first loop of dispatchMessages, over the queue: the callback, then `pop`.
unfoldable pub dispatch_connectivity : List PlayerConnectivityMessage → Exec Lobby (Unit {0})
dispatch_connectivity [] = pure tt
dispatch_connectivity (m ∷ rest) = do
  callback ← gets (λ l. l.env.connectivity_callback)
  call_connectivity callback m
  on_env (set_connectivity rest)
  dispatch_connectivity rest

-- The call of a subscribed callback. The one of a room goes to the object at its address: if that
-- room was destroyed, the behaviour is undefined.
unfoldable pub call : PlayerActionCallback → ℕ → PlayerActionMessage → Exec Lobby (Unit {0})
call manager_callback player_id message = RoomManager.handle_player_message player_id message
call (room_callback address) player_id message = do
  rooms ← gets (λ l. l.rooms)
  elim (find_if (λ r. r.address == address) rooms) [
    | none ↦ throw undefined_behaviour
    | some place ↦ do
      left ← in_place place (Actions.handle_player_message player_id message)
      pure tt
  ]

-- `catch (std::exception &error)`
abbrev pub caught : Result (Unit {0}) → Result (Unit {0})
caught (ok a) = ok a
caught (err bad_optional_access) = ok tt
caught (err bad_function_call) = ok tt
caught (err undefined_behaviour) = err undefined_behaviour
caught (err runtime_error) = ok tt
caught (err serialize_exception) = ok tt

abbrev pub try : Exec Lobby (Unit {0}) → Exec Lobby (Unit {0})
try m l = (caught (m l).0, (m l).1)

-- The innermost loop: one message, to each of the callbacks.
unfoldable pub call_all : List Subscription → ℕ → PlayerActionMessage → Exec Lobby (Unit {0})
call_all [] player_id message = pure tt
call_all (s ∷ rest) player_id message = do
  try (call s.callback player_id message)
  call_all rest player_id message

abbrev pub set_actions : ℕ → List PlayerActionMessage → Environment → Environment
set_actions player_id queue e = record e {
  hub = record e.hub {
    player_action_messages_by_player_id =
        UnorderedMap.update [] player_id (λ _. queue) e.hub.player_action_messages_by_player_id;
  };
}

-- The `while` loop over the queue of one player. The callbacks are those that were subscribed when
-- the loop began: the source copies the vector before it.
unfoldable pub deliver : List Subscription → ℕ → List PlayerActionMessage → Exec Lobby (Unit {0})
deliver callbacks player_id [] = pure tt
deliver callbacks player_id (message ∷ rest) = do
  call_all callbacks player_id message
  on_env (set_actions player_id rest)
  deliver callbacks player_id rest

abbrev pub actions_of : ℕ → Environment → List PlayerActionMessage
actions_of player_id e = UnorderedMap.at [] player_id e.hub.player_action_messages_by_player_id

-- The second loop of dispatchMessages, over the keys of the map of callbacks, in its order. No
-- callback adds a key to the map.
unfoldable pub dispatch_actions : List ℕ → Exec Lobby (Unit {0})
dispatch_actions [] = pure tt
dispatch_actions (player_id ∷ rest) = do
  callbacks ← gets (λ l. UnorderedMap.at [] player_id l.env.subscriptions)
  queue ← gets (λ l. actions_of player_id l.env)
  on_env (set_actions player_id queue)
  deliver callbacks player_id queue
  dispatch_actions rest

-- GameplayMessageBroker::dispatchMessages
unfoldable pub dispatch_messages : Exec Lobby (Unit {0})
dispatch_messages = do
  connectivity ← gets (λ l. l.env.hub.player_connectivity_messages)
  dispatch_connectivity connectivity
  keys ← gets (λ l. map (λ (entry : ℕ × List Subscription). entry.0) l.env.subscriptions)
  dispatch_actions keys

-- The body of the endless loop of Gameplay::start.
unfoldable pub round : Exec Gameplay (Unit {0})
round = do dispatch_messages; tick_all_rooms
