-- ===== src/Network/Dispatch.antt =====
-- NetworkMessageBroker::dispatchMessages as a whole: what it leaves alone, and what it delivers.
use samurai_kirby_server.Prelude.{
  ℕ, Option, none, some, Bool, true, false, List, [], ◌∷◌, ◌≡◌, refl, ◌∙◌, has_value, Bool-cases,
  inl, inr,
}
use samurai_kirby_server.Exec.{
  Result, ok, err, Exec, runtime_error, undefined_behaviour, bad_optional_access, bad_function_call,
  serialize_exception, continue,
}
use samurai_kirby_server.Messages.{GameplayMessage}
use samurai_kirby_server.Serializer.{Outcome, done, json_exception, not_handled}
use samurai_kirby_server.Serializer.Interface.{Serializer}
use samurai_kirby_server.Sockets.Client.{send_text}
use samurai_kirby_server.Network.{
  Server, ConnectedClient, find_client, handle_gameplay_message, call, queue_of, deliver,
  dispatch_callbacks, dispatch_messages, send_outcome, call_on,
}
use samurai_kirby_server.Network.Delivery.{with_queue}
use samurai_kirby_server.Network.Clients.{AllFound}

-- A dispatch ends, or throws what no handler of the server catches.
abbrev pub is_dispatched : Result (Unit {0}) → Bool
is_dispatched (ok a) = true
is_dispatched (err serialize_exception) = true
is_dispatched (err runtime_error) = false
is_dispatched (err undefined_behaviour) = false
is_dispatched (err bad_optional_access) = false
is_dispatched (err bad_function_call) = false

module _ {Text : Type 0} where
  -- What a dispatch leaves alone.
  pub record Keeps (before after : Server Text) : Type 0 where
    pub next_id : after.next_client_id ≡ before.next_client_id
    pub callbacks :
        after.message_broker.gameplay_message_callbacks
        ≡ before.message_broker.gameplay_message_callbacks
    pub socket : after.server_socket ≡ before.server_socket
    pub clients : after.connected_clients ≡ before.connected_clients
    pub api : after.system.api ≡ before.system.api

  Keeps-refl : (s : Server Text) → Keeps s s
  Keeps-refl s = record {
    next_id = refl;
    callbacks = refl;
    socket = refl;
    clients = refl;
    api = refl;
  }

  Keeps-trans : (s t u : Server Text) → Keeps s t → Keeps t u → Keeps s u
  Keeps-trans s t u a b = record {
    next_id = b.next_id ∙ a.next_id;
    callbacks = b.callbacks ∙ a.callbacks;
    socket = b.socket ∙ a.socket;
    clients = b.clients ∙ a.clients;
    api = b.api ∙ a.api;
  }

  abbrev pub Dispatches : Server Text → Result (Unit {0}) × Server Text → Type 0
  Dispatches s o = (is_dispatched o.0 ≡ true) × Keeps s o.1

  continue-Dispatches :
      (s : Server Text) (o : Result (Unit {0}) × Server Text) (k : Exec (Server Text) (Unit {0}))
      → Dispatches s o
      → ((t : Server Text) → Keeps s t → Dispatches t (k t))
      → Dispatches s (continue o.0 o.1 (λ _. k))
  continue-Dispatches s (ok a, t) k (_, keeps) later =
      ((later t keeps).0, Keeps-trans s t (k t).1 keeps (later t keeps).1)
  continue-Dispatches s (err e, t) k h later = h

module _ (S : Serializer) where
  send_outcome-Dispatches :
      (c : ConnectedClient) (o : Outcome S.Text) (s : Server S.Text)
      → Dispatches s (send_outcome S c.client_socket o s)
  unfolding send_text
  send_outcome-Dispatches c (done t) s =
      (refl, record { next_id = refl; callbacks = refl; socket = refl; clients = refl; api = refl })
  send_outcome-Dispatches c json_exception s = (refl, Keeps-refl s)
  send_outcome-Dispatches c not_handled s = (refl, Keeps-refl s)

  handle_gameplay_message-Dispatches :
      (c : ConnectedClient) (m : GameplayMessage) (s : Server S.Text)
      → Dispatches s (handle_gameplay_message S c m s)
  unfolding handle_gameplay_message
  handle_gameplay_message-Dispatches c m s = elim (Bool-cases c.has_been_disconnected) [
    | inl e ↦ rw e (refl, Keeps-refl s)
    | inr e ↦ rw e (send_outcome-Dispatches c (S.serialize m) s)
  ]

  call_on-Dispatches :
      (c : Option ConnectedClient) (m : GameplayMessage) (s : Server S.Text)
      → has_value c ≡ true
      → Dispatches s (call_on S c m s)
  call_on-Dispatches none m s found = cc
  call_on-Dispatches (some c) m s found = handle_gameplay_message-Dispatches c m s

  call-Dispatches :
      (id : ℕ) (m : GameplayMessage) (s : Server S.Text)
      → has_value (find_client id s.connected_clients) ≡ true
      → Dispatches s (call S id m s)
  unfolding call
  call-Dispatches id m s found = call_on-Dispatches (find_client id s.connected_clients) m s found

  set-Keeps :
      (player_id : ℕ) (ms : List GameplayMessage) (s : Server S.Text)
      → Keeps s (with_queue player_id ms s)
  set-Keeps player_id ms s = record {
    next_id = refl;
    callbacks = refl;
    socket = refl;
    clients = refl;
    api = refl;
  }

  -- A step of the dispatch is made where the clients are those of `s`.
  deliver-Dispatches :
      (player_id id : ℕ) (ms : List GameplayMessage) (s : Server S.Text)
      → has_value (find_client id s.connected_clients) ≡ true
      → Dispatches s (deliver S player_id id ms s)
  unfolding deliver
  deliver-Dispatches player_id id [] s found = (refl, Keeps-refl s)
  deliver-Dispatches player_id id (m ∷ ms) s found =
      continue-Dispatches s (call S id m s) _ (call-Dispatches id m s found) λ t keeps.
        continue-Dispatches t (ok tt, with_queue player_id ms t) _ (refl, set-Keeps player_id ms t)
          λ u kept. deliver-Dispatches player_id id ms u (rw (kept.clients ∙ keeps.clients) found)

  dispatch_callbacks-Dispatches :
      (es : List (ℕ × ℕ)) (s : Server S.Text)
      → AllFound es s.connected_clients
      → Dispatches s (dispatch_callbacks S es s)
  unfolding dispatch_callbacks
  dispatch_callbacks-Dispatches [] s found = (refl, Keeps-refl s)
  dispatch_callbacks-Dispatches ((player_id, id) ∷ es) s (here, found) =
      let next = with_queue player_id (queue_of player_id s) s in
      let keeps = set-Keeps player_id (queue_of player_id s) s in
      continue-Dispatches s (ok tt, next) _ (refl, keeps)
        λ t kept.
          continue-Dispatches t (deliver S player_id id (queue_of player_id s) t) _
            (deliver-Dispatches player_id id (queue_of player_id s) t (rw kept.clients here))
            λ u last. dispatch_callbacks-Dispatches es u (rw (last.clients ∙ kept.clients) found)

  -- If each callback belongs to a client that is there, then a dispatch comes to its end or throws the
  -- SerializeException, and never calls a client that is gone; it changes neither the clients, their
  -- callbacks and ids nor the socket of the server.
  pub dispatch_messages-Dispatches :
      (s : Server S.Text)
      → AllFound s.message_broker.gameplay_message_callbacks s.connected_clients
      → Dispatches s (dispatch_messages S s)
  unfolding dispatch_messages
  dispatch_messages-Dispatches s found =
      dispatch_callbacks-Dispatches s.message_broker.gameplay_message_callbacks s found
