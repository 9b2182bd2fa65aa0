-- ===== src/Network/Safety.antt =====
-- The loop of the server never calls a client that is gone.
use samurai_kirby_server.Prelude.{
  ℕ, zero, suc, Option, none, some, true, false, List, [], ◌∷◌, ◌≡◌, refl, ap, ◌∙◌, arith,
  has_value,
}
use samurai_kirby_server.Exec.{
  Result, ok, err, Exec, runtime_error, undefined_behaviour, bad_optional_access, bad_function_call,
  serialize_exception, continue,
}
use samurai_kirby_server.Serializer.Interface.{Serializer}
use samurai_kirby_server.Sockets.{System, Answer, unix}
use samurai_kirby_server.Sockets.Server.{ServerSocket}
use samurai_kirby_server.Sockets.Client.{ClientSocket, accept_connection}
use samurai_kirby_server.Network.{
  Server, ConnectedClient, publish_player_connectivity_message,
  subscribe_to_gameplay_messages_for_player, dispatch_messages,
}
use samurai_kirby_server.Network.Serving.{
  receive_from_network, erase_if_disconnected, communicate, handle_clients_communication,
  add_client, add_accepted, handle_new_client_connection, caught, round, rounds,
}
use samurai_kirby_server.Network.Clients.{Ascending-append, update-entries}
use samurai_kirby_server.Network.Dispatch.{Dispatches, dispatch_messages-Dispatches}
use samurai_kirby_server.Network.Invariant.{
  IsServing, Serves, IsReading, continue-Serves, system-IsServing, Keeps-IsReading, found,
}
use samurai_kirby_server.Network.Reading.{
  Reads, erase_if_disconnected-Serves, receive_from_network-Reads,
}
use samurai_kirby_server.Network.Serving.{accept_on}
use samurai_kirby_server.Sockets.Opening.{is_plain}
use samurai_kirby_server.Prelude.{All-append}
use samurai_kirby_server.Prelude.UnorderedMap.{update}
use samurai_kirby_server.Sockets.Accepting.{
  Accepts, accept_connection-Accepts, accept_connection-api,
}

module _ {Text : Type 0} where
  Accepts-is_plain :
      (v : ServerSocket) (a : Answer) (s : System Text)
      (o : Result (Option ClientSocket) × System Text)
      → s.api.platform ≡ unix
      → Accepts v a s o
      → is_plain o.0 ≡ true
  Accepts-is_plain v a s (ok c, t) e h = refl
  Accepts-is_plain v a s (err runtime_error, t) e h = refl
  Accepts-is_plain v a s (err undefined_behaviour, t) e h = ground arith
  Accepts-is_plain v a s (err bad_optional_access, t) e h = absurd h
  Accepts-is_plain v a s (err bad_function_call, t) e h = absurd h
  Accepts-is_plain v a s (err serialize_exception, t) e h = absurd h

module _ (S : Serializer) where
  after-reading :
      (id : ℕ) (o : Result (Unit {0}) × Server S.Text) (k : Exec (Server S.Text) (Unit {0}))
      → Reads S id o
      → ((t : Server S.Text) → IsReading id t → Serves (k t))
      → Serves (continue o.0 o.1 (λ _. k))
  after-reading id (ok a, t) k h later = later t h
  after-reading id (err runtime_error, t) k h later = h
  after-reading id (err serialize_exception, t) k h later = absurd h
  after-reading id (err undefined_behaviour, t) k h later = absurd h
  after-reading id (err bad_optional_access, t) k h later = absurd h
  after-reading id (err bad_function_call, t) k h later = absurd h

  after-dispatch :
      (id : ℕ) (s : Server S.Text) (o : Result (Unit {0}) × Server S.Text)
      (k : Exec (Server S.Text) (Unit {0}))
      → IsReading id s
      → Dispatches s o
      → ((t : Server S.Text) → IsReading id t → Serves (k t))
      → Serves (continue o.0 o.1 (λ _. k))
  after-dispatch id s (ok a, t) k h (_, keeps) later = later t (Keeps-IsReading id s t keeps h)
  after-dispatch id s (err serialize_exception, t) k h d later = tt
  after-dispatch id s (err runtime_error, t) k h d later = cc
  after-dispatch id s (err undefined_behaviour, t) k h d later = cc
  after-dispatch id s (err bad_optional_access, t) k h d later = cc
  after-dispatch id s (err bad_function_call, t) k h d later = cc

  pub communicate-Serves :
      (cs : List ConnectedClient) (s : Server S.Text) → IsServing s → Serves (communicate S cs s)
  unfolding communicate
  communicate-Serves [] s h = h
  communicate-Serves (c ∷ rest) s h =
      after-reading c.id (receive_from_network S c s) _ (receive_from_network-Reads S c s h) λ t ht.
        after-dispatch c.id t (dispatch_messages S t) _ ht
          (dispatch_messages-Dispatches S t (found c.id t ht))
          λ u hu.
            continue-Serves (erase_if_disconnected S c u) _ (erase_if_disconnected-Serves S c u hu)
              λ w hw. communicate-Serves rest w hw

  pub add_client-IsServing :
      (c : ClientSocket) (s : Server S.Text) → IsServing s → IsServing (add_client S c s)
  unfolding add_client subscribe_to_gameplay_messages_for_player publish_player_connectivity_message
  add_client-IsServing c s h =
      let client : ConnectedClient = record {
        client_socket = c;
        id = s.next_client_id;
        has_been_disconnected = false;
      } in
      record {
        callbacks =
            ap (update s.next_client_id s.next_client_id (λ _. s.next_client_id)) h.callbacks
            ∙ update-entries 0 s.next_client_id s.connected_clients client refl h.ascending;
        ascending = Ascending-append 0 s.next_client_id s.connected_clients client refl h.ascending;
        live =
            All-append (λ (d : ConnectedClient). d.has_been_disconnected ≡ false)
              s.connected_clients (client ∷ []) h.live (refl, tt);
        listens = h.listens;
        platform = h.platform;
      }

  accepted-Serves :
      (o : Result (Option ClientSocket) × System S.Text) (s : Server S.Text)
      → IsServing s
      → o.1.api ≡ s.system.api
      → is_plain o.0 ≡ true
      → Serves (continue o.0 (record s { system = o.1 }) (add_accepted S))
  accepted-Serves (ok none, t) s h e a = system-IsServing t s e h
  accepted-Serves (ok (some c), t) s h e a =
      add_client-IsServing c (record s { system = t }) (system-IsServing t s e h)
  accepted-Serves (err runtime_error, t) s h e a = system-IsServing t s e h
  accepted-Serves (err undefined_behaviour, t) s h e a = cc
  accepted-Serves (err bad_optional_access, t) s h e a = cc
  accepted-Serves (err bad_function_call, t) s h e a = cc
  accepted-Serves (err serialize_exception, t) s h e a = cc

  accept_on-Serves :
      (v : Option ServerSocket) (s : Server S.Text)
      → has_value v ≡ true
      → IsServing s
      → Serves (accept_on S v s)
  accept_on-Serves none s listens h = cc
  accept_on-Serves (some v) s listens h =
      accepted-Serves (accept_connection v s.system) s h (accept_connection-api v s.system) (
        Accepts-is_plain v _ s.system (accept_connection v s.system) h.platform
          (accept_connection-Accepts v s.system))

  pub handle_new_client_connection-Serves :
      (s : Server S.Text) → IsServing s → Serves (handle_new_client_connection S s)
  unfolding handle_new_client_connection
  handle_new_client_connection-Serves s h = accept_on-Serves s.server_socket s h.listens h

  -- How a round of the loop may end.
  abbrev pub Lasts : Result (Unit {0}) × Server S.Text → Type 0
  Lasts (ok a, s) = IsServing s
  Lasts (err serialize_exception, s) = Unit {0}
  Lasts (err runtime_error, s) = ⊥
  Lasts (err undefined_behaviour, s) = ⊥
  Lasts (err bad_optional_access, s) = ⊥
  Lasts (err bad_function_call, s) = ⊥

  caught-Lasts : (o : Result (Unit {0}) × Server S.Text) → Serves o → Lasts (caught S o.0, o.1)
  caught-Lasts (ok a, s) h = h
  caught-Lasts (err runtime_error, s) h = h
  caught-Lasts (err serialize_exception, s) h = h
  caught-Lasts (err undefined_behaviour, s) h = h
  caught-Lasts (err bad_optional_access, s) h = h
  caught-Lasts (err bad_function_call, s) h = h

  continue-Lasts :
      (o : Result (Unit {0}) × Server S.Text) (k : Exec (Server S.Text) (Unit {0}))
      → Lasts o
      → ((t : Server S.Text) → IsServing t → Lasts (k t))
      → Lasts (continue o.0 o.1 (λ _. k))
  continue-Lasts (ok a, t) k h later = later t h
  continue-Lasts (err serialize_exception, t) k h later = tt
  continue-Lasts (err runtime_error, t) k h later = h
  continue-Lasts (err undefined_behaviour, t) k h later = h
  continue-Lasts (err bad_optional_access, t) k h later = h
  continue-Lasts (err bad_function_call, t) k h later = h

  round-Lasts : (s : Server S.Text) → IsServing s → Lasts (round S s)
  unfolding round handle_clients_communication
  round-Lasts s h = caught-Lasts _ (
      continue-Serves (handle_new_client_connection S s) _ (handle_new_client_connection-Serves s h)
        λ t ht. communicate-Serves t.connected_clients t ht)

  -- Take a server that listens, elsewhere than on Windows, with one callback for each client, in
  -- their order, with ids that go up and stay below the next one, and with no client marked as
  -- disconnected. However often its loop comes round, with nothing else in between, and whatever the
  -- system answers, it is such a server again, unless the SerializeException has ended it: no other
  -- exception leaves the loop, a runtime_error neither, and the callback of a client that was
  -- destroyed is never called.
  pub rounds-Lasts : (n : ℕ) (s : Server S.Text) → IsServing s → Lasts (rounds S n s)
  unfolding rounds
  rounds-Lasts zero s h = h
  rounds-Lasts (suc n) s h =
      continue-Lasts (round S s) _ (round-Lasts s h) λ t ht. rounds-Lasts n t ht
