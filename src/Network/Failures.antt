-- ===== src/Network/Failures.antt =====
-- What the server makes of what the socket of a client answers.
use mathlib.Core.List.{append-nil, append_assoc}
use samurai_kirby_server.Prelude.{
  ℕ, zero, suc, some, true, false, List, [], ◌∷◌, ◌++◌, ◌≡◌, refl, sym, ap, ◌∙◌, arith, ◌==◌,
}
use samurai_kirby_server.Prelude.UnorderedMap
use samurai_kirby_server.Prelude.UnorderedMap.{at-update}
use samurai_kirby_server.Exec.{ok, err, is_ok, runtime_error}
use samurai_kirby_server.Messages.{PlayerActionMessage}
use samurai_kirby_server.Serializer.{Outcome, done, json_exception, not_handled}
use samurai_kirby_server.Serializer.Interface.{Serializer}
use samurai_kirby_server.Sockets.{
  System, Call, returned, failed, would_block, error_of, accept, recv, called, unix,
}
use samurai_kirby_server.Sockets.Server.{ServerSocket}
use samurai_kirby_server.Sockets.Client.{accept_connection}
use samurai_kirby_server.Network.{
  Server, ConnectedClient, publish_player_connectivity_message, publish_player_action_message,
}
use samurai_kirby_server.Network.Serving.{
  publish_outcome, disconnect_of, receive_from_network, communicate, handle_clients_communication,
  handle_new_client_connection, round, rounds, buffer_size,
}

-- The messages that a text gives to the game: the one that is read from it, or none.
abbrev pub read_actions : Outcome PlayerActionMessage → List PlayerActionMessage
read_actions (done m) = m ∷ []
read_actions json_exception = []
read_actions not_handled = []

abbrev pub recv_from : {Text : Type 0} → ConnectedClient → Call Text
recv_from c = recv c.client_socket.descriptor buffer_size

module _ {Text : Type 0} where
  abbrev pub actions_of : ℕ → Server Text → List PlayerActionMessage
  actions_of player_id s =
      UnorderedMap.at [] player_id s.message_broker.message_hub.player_action_messages_by_player_id

  abbrev with_system : System Text → Server Text → Server Text
  with_system system s = record s { system = system }

  -- The server after the actions `ms` came from a client: they stand at the end of the client's
  -- queue, and the other queues are as they were, those of connections and of messages for players too.
  pub record IsRead (c : ConnectedClient) (ms : List PlayerActionMessage)
      (before after : Server Text) : Type 0 where
    pub own : actions_of c.id after ≡ actions_of c.id before ++ ms
    pub others : (j : ℕ) → (c.id == j) ≡ false → actions_of j after ≡ actions_of j before
    pub connectivity :
        after.message_broker.message_hub.player_connectivity_messages
        ≡ before.message_broker.message_hub.player_connectivity_messages
    pub announcements :
        after.message_broker.message_hub.gameplay_messages_by_player_id
        ≡ before.message_broker.message_hub.gameplay_messages_by_player_id
    pub callbacks :
        after.message_broker.gameplay_message_callbacks
        ≡ before.message_broker.gameplay_message_callbacks
    pub clients : after.connected_clients ≡ before.connected_clients
    pub calls : after.system.calls ≡ before.system.calls ++ recv_from c ∷ []

  unread :
      (c : ConnectedClient) (s : Server Text)
      → IsRead c [] s (with_system (called (recv_from c) s.system) s)
  unread c s = record {
    own = sym (append-nil (actions_of c.id s));
    others = λ _ _. refl;
    connectivity = refl;
    announcements = refl;
    callbacks = refl;
    clients = refl;
    calls = refl;
  }

module _ (S : Serializer) where
  publish_outcome-IsRead :
      (c : ConnectedClient) (o : Outcome PlayerActionMessage) (s : Server S.Text)
      → let next = with_system (called (recv_from c) s.system) s in
        (is_ok (publish_outcome S c.id o next).0 ≡ true)
        × IsRead c (read_actions o) s (publish_outcome S c.id o next).1
  unfolding publish_player_action_message
  publish_outcome-IsRead c (done m) s =
      let publish = λ (queue : List PlayerActionMessage). queue ++ m ∷ [] in
      let queues = s.message_broker.message_hub.player_action_messages_by_player_id in
      (
        refl,
        record {
          own = at-update [] c.id c.id publish queues ∙ ground arith;
          others = λ j other. at-update [] c.id j publish queues ∙ ground arith;
          connectivity = refl;
          announcements = refl;
          callbacks = refl;
          clients = refl;
          calls = refl;
        },
      )
  publish_outcome-IsRead c json_exception s = (refl, unread c s)
  publish_outcome-IsRead c not_handled s = (refl, unread c s)

  -- If a client's socket gives bytes, then reading from it throws nothing, whatever they are: the
  -- action that is read from them is put at the end of that client's queue, a text that is no action
  -- is dropped, no other queue and no client changes, and `recv` is the only call of the system.
  pub receive_from_network-IsRead :
      (c : ConnectedClient) (n : ℕ) (s : Server S.Text)
      → s.system.answer s.system.made (recv_from c) ≡ returned (suc n)
      → (is_ok (receive_from_network S c s).0 ≡ true)
        × IsRead c
            (read_actions (S.deserialize (s.system.bytes s.system.made)))
            s
            (receive_from_network S c s).1
  unfolding receive_from_network
  receive_from_network-IsRead c n s given =
      rw given (publish_outcome-IsRead c (S.deserialize (s.system.bytes s.system.made)) s)

  abbrev pub repeated : {A : Type 0} → ℕ → List A → List A
  repeated zero l = []
  repeated (suc n) l = l ++ repeated n l

  abbrev noticed : ServerSocket → ConnectedClient → Server S.Text → Server S.Text
  noticed v c s = record s {
    message_broker = publish_player_connectivity_message (disconnect_of c.id) s.message_broker;
    system = called (recv_from c) (called (accept v.descriptor) s.system);
  }

  abbrev asked : ServerSocket → Server S.Text → Server S.Text
  asked v s = with_system (called (accept v.descriptor) s.system) s

  nobody_comes :
      (v : ServerSocket) (s : Server S.Text)
      → s.server_socket ≡ some v
      → s.system.answer s.system.made (accept v.descriptor) ≡ failed would_block
      → handle_new_client_connection S s ≡ (ok tt, asked v s)
  unfolding handle_new_client_connection accept_connection
  nobody_comes v s listening accepts = ground arith

  communication-fails :
      (c : ConnectedClient) (rest : List ConnectedClient) (e : ℕ) (s : Server S.Text)
      → s.system.api.platform ≡ unix
      → s.system.answer s.system.made (recv_from c) ≡ failed (error_of e)
      → communicate S (c ∷ rest) s ≡ (
        err runtime_error,
        record s {
          message_broker =
              publish_player_connectivity_message (disconnect_of c.id) s.message_broker;
          system = called (recv_from c) s.system;
        },
      )
  unfolding communicate receive_from_network
  communication-fails c rest e s platform receives = simp (receives, platform)

  round-fails :
      (v : ServerSocket) (c : ConnectedClient) (rest : List ConnectedClient) (e : ℕ)
      (s : Server S.Text)
      → s.server_socket ≡ some v
      → s.connected_clients ≡ c ∷ rest
      → s.system.api.platform ≡ unix
      → ((k : ℕ) → s.system.answer k (accept v.descriptor) ≡ failed would_block)
      → ((k : ℕ) → s.system.answer k (recv_from c) ≡ failed (error_of e))
      → round S s ≡ (ok tt, noticed v c s)
  unfolding round handle_clients_communication
  round-fails v c rest e s listening clients platform accepts receives =
      let read = asked v s in
      rw (nobody_comes v s listening (accepts s.system.made)) (
        rw
          (ap (λ l. communicate S l read) clients
            ∙ communication-fails c rest e read platform (receives read.system.made))
          refl)

  -- The server after `n` rounds in which nothing but a client's failing was noticed.
  pub record IsStuck (n : ℕ) (v : ServerSocket) (c : ConnectedClient) (before after : Server S.Text)
      : Type 0 where
    pub clients : after.connected_clients ≡ before.connected_clients
    pub announcements :
        after.message_broker.message_hub.gameplay_messages_by_player_id
        ≡ before.message_broker.message_hub.gameplay_messages_by_player_id
    pub actions :
        after.message_broker.message_hub.player_action_messages_by_player_id
        ≡ before.message_broker.message_hub.player_action_messages_by_player_id
    pub connectivity :
        after.message_broker.message_hub.player_connectivity_messages
        ≡ before.message_broker.message_hub.player_connectivity_messages
          ++ repeated n (disconnect_of c.id ∷ [])
    pub calls :
        after.system.calls
        ≡ before.system.calls ++ repeated n (accept v.descriptor ∷ recv_from c ∷ [])

  -- If, elsewhere than on Windows, nobody new connects and every reading from the first client's socket
  -- ends in an error, then the rounds of the loop go on without an exception, but each asks for
  -- a connection, reads from the first client only, and announces once more that it has disconnected:
  -- it stays among the clients, the others are not read, and nothing is sent.
  pub broken_client_blocks :
      (n : ℕ) (v : ServerSocket) (c : ConnectedClient) (rest : List ConnectedClient) (e : ℕ)
      (s : Server S.Text)
      → s.server_socket ≡ some v
      → s.connected_clients ≡ c ∷ rest
      → s.system.api.platform ≡ unix
      → ((k : ℕ) → s.system.answer k (accept v.descriptor) ≡ failed would_block)
      → ((k : ℕ) → s.system.answer k (recv_from c) ≡ failed (error_of e))
      → (is_ok (rounds S n s).0 ≡ true) × IsStuck n v c s (rounds S n s).1
  unfolding rounds publish_player_connectivity_message
  broken_client_blocks zero v c rest e s listening clients platform accepts receives = (
    refl,
    record {
      clients = refl;
      announcements = refl;
      actions = refl;
      connectivity = sym (append-nil s.message_broker.message_hub.player_connectivity_messages);
      calls = sym (append-nil s.system.calls);
    },
  )
  broken_client_blocks (suc n) v c rest e s listening clients platform accepts receives =
      let later =
        broken_client_blocks n v c rest e (noticed v c s) listening clients platform accepts
          receives in
      rw (round-fails v c rest e s listening clients platform accepts receives) (
        later.0,
        record {
          clients = later.1.clients;
          announcements = later.1.announcements;
          actions = later.1.actions;
          connectivity =
              later.1.connectivity
              ∙ append_assoc s.message_broker.message_hub.player_connectivity_messages
                  (disconnect_of c.id ∷ []) (repeated n (disconnect_of c.id ∷ []));
          calls = later.1.calls ∙ simp (append_assoc) refl;
        },
      )
