-- ===== src/Network/Serving.antt =====
-- network/Server.h and Server.cpp, and how network/ConnectedClient.cpp comes, reads from its
-- socket and goes.
use samurai_kirby_server.Prelude.{
  ℕ, zero, suc, Option, none, some, Bool, true, false, List, [], ◌∷◌, ◌++◌, ◌==◌, if◌then◌else◌,
}
use samurai_kirby_server.Exec.{
  Exec, runtime_error, undefined_behaviour, bad_optional_access, bad_function_call,
  serialize_exception, Result, ok, err, pure, throw, gets, ◌>>=◌, ◌>>◌,
}
use samurai_kirby_server.Messages.{
  PlayerActionMessage, PlayerConnectivityMessage, connect, disconnect,
}
use samurai_kirby_server.Serializer.{Outcome, done, json_exception, not_handled}
use samurai_kirby_server.Serializer.Interface.{Serializer}
use samurai_kirby_server.Sockets.{
  System, Answer, returned, failed, would_block, error_of, recv, startup, perform, if_windows,
  throw_at,
}
use samurai_kirby_server.Sockets.Server.{ServerSocket, open_server_socket}
use samurai_kirby_server.Sockets.Client.{
  get_internal_socket, ClientSocket, accept_connection, close_client_socket,
}
use samurai_kirby_server.Network.{
  ConnectedClient, get_ip, get_port, Server, on_broker, on_system,
  publish_player_connectivity_message, publish_player_action_message,
  subscribe_to_gameplay_messages_for_player, unsubscribe_to_gameplay_messages_for_player,
  dispatch_messages,
}

abbrev pub mark_disconnected : ℕ → List ConnectedClient → List ConnectedClient
mark_disconnected id [] = []
mark_disconnected id (c ∷ rest) =
    if c.id == id
    then record c { has_been_disconnected = true } ∷ rest
    else c ∷ mark_disconnected id rest

abbrev pub erase_client : ℕ → List ConnectedClient → List ConnectedClient
erase_client id [] = []
erase_client id (c ∷ rest) = if c.id == id then rest else c ∷ erase_client id rest

abbrev pub is_disconnected : ℕ → List ConnectedClient → Bool
is_disconnected id [] = false
is_disconnected id (c ∷ rest) =
    if c.id == id then c.has_been_disconnected else is_disconnected id rest

-- BUFFER_SIZE and PORT
abbrev pub buffer_size : ℕ
buffer_size = 1024

abbrev pub listening_port : ℕ
listening_port = 8081

abbrev pub disconnect_of : ℕ → PlayerConnectivityMessage
disconnect_of id = record { message_type = disconnect; player_id = id }

module _ (S : Serializer) where
  -- The `try` of receiveFromNetwork.
  abbrev pub publish_outcome : ℕ → Outcome PlayerActionMessage → Exec (Server S.Text) (Unit {0})
  publish_outcome id (done message) = on_broker (publish_player_action_message id message)
  publish_outcome id not_handled = pure tt
  publish_outcome id json_exception = pure tt

  -- What receiveFromNetwork does after `recv`. On Windows the message of the exception is a
  -- literal of 34 characters to which the number of the error is added.
  abbrev pub handle_reception : ℕ → S.Text → Answer → Exec (Server S.Text) (Unit {0})
  handle_reception id t (returned (suc _)) = publish_outcome id (S.deserialize t)
  handle_reception id t (returned zero) = do
    λ s. (ok tt, record s { connected_clients = mark_disconnected id s.connected_clients })
    on_broker (publish_player_connectivity_message (disconnect_of id))
  handle_reception id t (failed would_block) = pure tt
  handle_reception id t (failed (error_of e)) = do
    on_broker (publish_player_connectivity_message (disconnect_of id))
    on_system (if_windows (throw_at 34 (error_of e)) (throw runtime_error))

  -- ConnectedClient::receiveFromNetwork
  unfoldable pub receive_from_network : ConnectedClient → Exec (Server S.Text) (Unit {0})
  unfolding publish_player_action_message publish_player_connectivity_message
  receive_from_network client = do
    bytes ← gets (λ s. s.system.bytes s.system.made)
    answer ← on_system (perform (recv (get_internal_socket client.client_socket) buffer_size))
    handle_reception client.id bytes answer

  -- The destructor of ConnectedClient, and that of its socket.
  unfoldable pub destroy_client : ConnectedClient → Exec (Server S.Text) (Unit {0})
  unfolding unsubscribe_to_gameplay_messages_for_player close_client_socket
  destroy_client client = do
    on_broker (unsubscribe_to_gameplay_messages_for_player client.id)
    on_system (close_client_socket client.client_socket)

  -- `isDisconnected() ? erase(it) : next(it)`
  unfoldable pub erase_if_disconnected : ConnectedClient → Exec (Server S.Text) (Unit {0})
  unfolding destroy_client
  erase_if_disconnected client = do
    clients ← gets (λ s. s.connected_clients)
    if is_disconnected client.id clients
        then (do
          destroy_client client
          λ s. (ok tt, record s { connected_clients = erase_client client.id s.connected_clients }))
        else pure tt

  -- The loop of Server::handleClientsCommunication. It goes through the clients that are there when
  -- it begins: in its course a client is only erased when it is the one at `it`.
  unfoldable pub communicate : List ConnectedClient → Exec (Server S.Text) (Unit {0})
  unfolding receive_from_network dispatch_messages erase_if_disconnected
  communicate [] = pure tt
  communicate (client ∷ rest) = do
    receive_from_network client
    dispatch_messages S
    erase_if_disconnected client
    communicate rest

  unfoldable pub handle_clients_communication : Exec (Server S.Text) (Unit {0})
  unfolding communicate
  handle_clients_communication s = communicate s.connected_clients s

  -- The constructor of ConnectedClient with `nextClientId++`, the line that is printed, and
  -- `push_back`.
  unfoldable pub add_client : ClientSocket → Server S.Text → Server S.Text
  unfolding publish_player_connectivity_message subscribe_to_gameplay_messages_for_player
  add_client socket s =
      let id = s.next_client_id in
      let client : ConnectedClient = record {
        client_socket = socket;
        id = id;
        has_been_disconnected = false;
      } in
      record s {
        next_client_id = suc id;
        message_broker = subscribe_to_gameplay_messages_for_player id id (
            publish_player_connectivity_message (record { message_type = connect; player_id = id })
              s.message_broker);
        log = s.log ++ (get_ip s.system.api client, get_port s.system.api client) ∷ [];
        connected_clients = s.connected_clients ++ client ∷ [];
      }

  abbrev pub add_accepted : Option ClientSocket → Exec (Server S.Text) (Unit {0})
  add_accepted none = pure tt
  add_accepted (some socket) = λ s. (ok tt, add_client socket s)

  -- Server::handleNewClientConnection. `acceptConnection` reads through the pointer to the socket.
  abbrev pub accept_on : Option ServerSocket → Exec (Server S.Text) (Unit {0})
  accept_on none = throw undefined_behaviour
  accept_on (some socket) = on_system (accept_connection socket) >>= add_accepted

  unfoldable pub handle_new_client_connection : Exec (Server S.Text) (Unit {0})
  unfolding add_client accept_connection
  handle_new_client_connection s = accept_on s.server_socket s

  abbrev pub caught : Result (Unit {0}) → Result (Unit {0})
  caught (ok a) = ok a
  caught (err runtime_error) = ok tt
  caught (err undefined_behaviour) = err undefined_behaviour
  caught (err bad_optional_access) = err bad_optional_access
  caught (err bad_function_call) = err bad_function_call
  caught (err serialize_exception) = err serialize_exception

  -- The body of the loop of Server::start. An exception that is left ends the program.
  unfoldable pub round : Exec (Server S.Text) (Unit {0})
  unfolding handle_new_client_connection handle_clients_communication
  round s =
      let o = (do handle_new_client_connection; handle_clients_communication) s in (caught o.0, o.1)

  -- The loop of Server::start, as often as it has come round.
  unfoldable pub rounds : ℕ → Exec (Server S.Text) (Unit {0})
  rounds zero = pure tt
  rounds (suc n) = do round; rounds n

  -- Server::initNetwork: WSAStartup returns 0 where it does not fail.
  abbrev pub startup_answer : Answer → Exec (Server S.Text) (Unit {0})
  startup_answer (returned _) = pure tt
  startup_answer (failed _) = throw runtime_error

  unfoldable pub init_network : Exec (Server S.Text) (Unit {0})
  init_network = on_system (if_windows (perform startup) (pure (returned 0))) >>= startup_answer

  -- The members of a server that the network uses, before its constructor runs.
  abbrev pub new_server : System S.Text → Server S.Text
  new_server system = record {
    next_client_id = 0;
    message_broker = record {
      message_hub = record {
        player_action_messages_by_player_id = [];
        gameplay_messages_by_player_id = [];
        player_connectivity_messages = [];
      };
      gameplay_message_callbacks = [];
    };
    server_socket = none;
    connected_clients = [];
    log = [];
    system = system;
  }

  -- What Server::start does ahead of its loop, of the network: the socket is opened and kept.
  abbrev pub keep_socket : ServerSocket → Exec (Server S.Text) (Unit {0})
  keep_socket socket s = (ok tt, record s { server_socket = some socket })

  unfoldable pub start_listening : ℕ → Exec (Server S.Text) (Unit {0})
  unfolding open_server_socket
  start_listening port = on_system (open_server_socket port) >>= keep_socket
