-- ===== src/Network.antt =====
-- messages/NetworkMessageBroker.h and NetworkMessageBroker.cpp, network/ConnectedClient.h, and what
-- ConnectedClient.cpp does with the messages that the broker dispatches.
pub mod Serving
pub mod Delivery
pub mod Failures
pub mod Clients
pub mod Dispatch
pub mod Invariant
pub mod Reading
pub mod Safety
pub mod Program
pub mod Queues
pub mod Passage
pub mod Loops
pub mod Termination
pub mod Quiet
pub mod Strangers
mod Examples
use samurai_kirby_server.Prelude.{
  ℕ, String, Option, none, some, Bool, List, [], ◌∷◌, ◌++◌, ◌==◌, if◌then◌else◌,
}
use samurai_kirby_server.Prelude.UnorderedMap
use samurai_kirby_server.Exec.{
  Exec, undefined_behaviour, serialize_exception, ok, pure, throw, gets, ◌>>=◌, ◌>>◌,
}
use samurai_kirby_server.Messages.{GameplayMessage, PlayerActionMessage, PlayerConnectivityMessage}
use samurai_kirby_server.Environment.{MessageHub}
use samurai_kirby_server.Serializer.{Outcome, done, json_exception, not_handled}
use samurai_kirby_server.Serializer.Interface.{Serializer}
use samurai_kirby_server.Sockets.{System, Api}
use samurai_kirby_server.Sockets.Server.{ServerSocket}
use samurai_kirby_server.Sockets.Client
use samurai_kirby_server.Sockets.Client.{ClientSocket, send_text}

-- `gameplay_message_callbacks` holds for each player the id of the client that the callback captures.
pub record NetworkMessageBroker : Type 0 where
  pub message_hub : MessageHub
  pub gameplay_message_callbacks : List (ℕ × ℕ)

unfoldable pub publish_player_connectivity_message :
    PlayerConnectivityMessage → NetworkMessageBroker → NetworkMessageBroker
publish_player_connectivity_message message b = record b {
  message_hub = record b.message_hub {
    player_connectivity_messages = b.message_hub.player_connectivity_messages ++ message ∷ [];
  };
}

unfoldable pub publish_player_action_message :
    ℕ → PlayerActionMessage → NetworkMessageBroker → NetworkMessageBroker
publish_player_action_message player_id message b = record b {
  message_hub = record b.message_hub {
    player_action_messages_by_player_id =
        UnorderedMap.update [] player_id (λ queue. queue ++ message ∷ [])
          b.message_hub.player_action_messages_by_player_id;
  };
}

unfoldable pub subscribe_to_gameplay_messages_for_player :
    ℕ → ℕ → NetworkMessageBroker → NetworkMessageBroker
subscribe_to_gameplay_messages_for_player player_id client_id b = record b {
  gameplay_message_callbacks =
      UnorderedMap.update client_id player_id (λ _. client_id) b.gameplay_message_callbacks;
}

unfoldable pub unsubscribe_to_gameplay_messages_for_player :
    ℕ → NetworkMessageBroker → NetworkMessageBroker
unsubscribe_to_gameplay_messages_for_player player_id b = record b {
  gameplay_message_callbacks = UnorderedMap.erase player_id b.gameplay_message_callbacks;
}

pub record ConnectedClient : Type 0 where
  pub client_socket : ClientSocket
  pub id : ℕ
  pub has_been_disconnected : Bool

abbrev pub get_ip : Api → ConnectedClient → String
get_ip api c = Client.get_ip api c.client_socket

abbrev pub get_port : Api → ConnectedClient → ℕ
get_port api c = Client.get_port api c.client_socket

abbrev pub get_id : ConnectedClient → ℕ
get_id c = c.id

abbrev pub find_client : ℕ → List ConnectedClient → Option ConnectedClient
find_client id [] = none
find_client id (c ∷ rest) = if c.id == id then some c else find_client id rest

abbrev pub set_queue : ℕ → List GameplayMessage → NetworkMessageBroker → NetworkMessageBroker
set_queue player_id queue b = record b {
  message_hub = record b.message_hub {
    gameplay_messages_by_player_id =
        UnorderedMap.update [] player_id (λ _. queue) b.message_hub.gameplay_messages_by_player_id;
  };
}

-- The server without its gameplay, which runs in the other thread, and the system below it. `none`
-- is a null pointer. `log` has the addresses and ports of the clients that were accepted, as they
-- are printed.
pub record Server (Text : Type 0) : Type 0 where
  pub next_client_id : ℕ
  pub message_broker : NetworkMessageBroker
  pub server_socket : Option ServerSocket
  pub connected_clients : List ConnectedClient
  pub log : List (String × ℕ)
  pub system : System Text

module _ {Text : Type 0} where
  abbrev pub on_broker :
      (NetworkMessageBroker → NetworkMessageBroker) → Exec (Server Text) (Unit {0})
  on_broker f s = (ok tt, record s { message_broker = f s.message_broker })

  abbrev pub on_system : {A : Type 0} → Exec (System Text) A → Exec (Server Text) A
  on_system m s = ((m s.system).0, record s { system = (m s.system).1 })

  abbrev pub queue_of : ℕ → Server Text → List GameplayMessage
  queue_of player_id s =
      UnorderedMap.at [] player_id s.message_broker.message_hub.gameplay_messages_by_player_id

module _ (S : Serializer) where
  -- The `try` of handleGameplayMessage.
  abbrev pub send_outcome : ClientSocket → Outcome S.Text → Exec (Server S.Text) (Unit {0})
  send_outcome socket (done t) = on_system (send_text socket t)
  send_outcome socket not_handled = pure tt
  send_outcome socket json_exception = throw serialize_exception

  -- ConnectedClient::handleGameplayMessage
  unfoldable pub handle_gameplay_message :
      ConnectedClient → GameplayMessage → Exec (Server S.Text) (Unit {0})
  unfolding send_text
  handle_gameplay_message client message =
      if client.has_been_disconnected
      then pure tt
      else send_outcome client.client_socket (S.serialize message)

  -- The callback that the constructor of a client subscribes. It is called on the client that it
  -- captured: if that one was destroyed, the behaviour is undefined.
  abbrev pub call_on : Option ConnectedClient → GameplayMessage → Exec (Server S.Text) (Unit {0})
  call_on none message = throw undefined_behaviour
  call_on (some client) message = handle_gameplay_message client message

  unfoldable pub call : ℕ → GameplayMessage → Exec (Server S.Text) (Unit {0})
  unfolding handle_gameplay_message
  call client_id message = do
    client ← gets (λ s. find_client client_id s.connected_clients)
    call_on client message

  -- The inner loop of NetworkMessageBroker::dispatchMessages, over the queue: the callback, then
  -- `pop`.
  unfoldable pub deliver : ℕ → ℕ → List GameplayMessage → Exec (Server S.Text) (Unit {0})
  unfolding call
  deliver player_id client_id [] = pure tt
  deliver player_id client_id (message ∷ rest) = do
    call client_id message
    on_broker (set_queue player_id rest)
    deliver player_id client_id rest

  -- NetworkMessageBroker::dispatchMessages, over the map of callbacks.
  unfoldable pub dispatch_callbacks : List (ℕ × ℕ) → Exec (Server S.Text) (Unit {0})
  unfolding deliver
  dispatch_callbacks [] = pure tt
  dispatch_callbacks ((player_id, client_id) ∷ rest) = do
    queue ← gets (queue_of player_id)
    on_broker (set_queue player_id queue)
    deliver player_id client_id queue
    dispatch_callbacks rest

  unfoldable pub dispatch_messages : Exec (Server S.Text) (Unit {0})
  unfolding dispatch_callbacks
  dispatch_messages s = dispatch_callbacks s.message_broker.gameplay_message_callbacks s
