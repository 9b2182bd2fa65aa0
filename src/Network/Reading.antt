-- ===== src/Network/Reading.antt =====
-- What reading a client, and erasing it if it has gone, makes of the server.
use samurai_kirby_server.Prelude.{ℕ, zero, suc, refl, sym, ap, ◌∙◌, Bool-cases, inl, inr}
use samurai_kirby_server.Prelude.UnorderedMap.{erase}
use samurai_kirby_server.Exec.{
  Result, ok, err, runtime_error, undefined_behaviour, bad_optional_access, bad_function_call,
  serialize_exception,
}
use samurai_kirby_server.Messages.{PlayerActionMessage}
use samurai_kirby_server.Serializer.{Outcome, done, json_exception, not_handled}
use samurai_kirby_server.Serializer.Interface.{Serializer}
use samurai_kirby_server.Sockets.{Answer, returned, failed, would_block, error_of, called}
use samurai_kirby_server.Sockets.Client.{close_client_socket}
use samurai_kirby_server.Network.{
  Server, ConnectedClient, publish_player_connectivity_message, publish_player_action_message,
  unsubscribe_to_gameplay_messages_for_player,
}
use samurai_kirby_server.Network.Serving.{
  disconnect_of, is_disconnected, publish_outcome, handle_reception, receive_from_network,
  destroy_client, erase_if_disconnected,
}
use samurai_kirby_server.Network.Clients.{entries, erase-entries, Ascending-erase, AllLive-erase}
use samurai_kirby_server.Network.Failures.{recv_from}
use samurai_kirby_server.Network.Invariant.{
  IsServing, Serves, IsReading, hub-IsServing, system-IsServing, erased, settled,
}

module _ (S : Serializer) where
  pub erase_if_disconnected-Serves :
      (c : ConnectedClient) (s : Server S.Text)
      → IsReading c.id s
      → Serves (erase_if_disconnected S c s)
  unfolding erase_if_disconnected destroy_client unsubscribe_to_gameplay_messages_for_player
      close_client_socket
  erase_if_disconnected-Serves c s h =
      elim (Bool-cases (is_disconnected c.id s.connected_clients)) [
        | inr e ↦ rw e (settled c.id s h e)
        | inl e ↦ rw e (record {
          callbacks =
              ap (erase c.id) h.callbacks
              ∙ erase-entries c.id 0 s.next_client_id h.before h.ascending
              ∙ ap entries (sym (erased c.id s h));
          ascending =
              rw (erased c.id s h) (Ascending-erase c.id 0 s.next_client_id h.before h.ascending);
          live = rw (erased c.id s h) (AllLive-erase c.id h.before h.live);
          listens = h.listens;
          platform = h.platform;
        })
      ]

  -- What reading a client leads to: the server while it is read, or a runtime_error that is thrown
  -- with the clients as they were.
  abbrev pub Reads : ℕ → Result (Unit {0}) × Server S.Text → Type 0
  Reads id (ok a, s) = IsReading id s
  Reads id (err runtime_error, s) = IsServing s
  Reads id (err serialize_exception, s) = ⊥
  Reads id (err undefined_behaviour, s) = ⊥
  Reads id (err bad_optional_access, s) = ⊥
  Reads id (err bad_function_call, s) = ⊥

  reading : (id : ℕ) (s : Server S.Text) → IsServing s → IsReading id s
  reading id s h = record {
    before = s.connected_clients;
    clients = inl refl;
    callbacks = h.callbacks;
    ascending = h.ascending;
    live = h.live;
    listens = h.listens;
    platform = h.platform;
  }

  publish_outcome-Reads :
      (id : ℕ) (o : Outcome PlayerActionMessage) (s : Server S.Text)
      → IsServing s
      → Reads id (publish_outcome S id o s)
  unfolding publish_player_action_message
  publish_outcome-Reads id (done m) s h =
      let broker = publish_player_action_message id m s.message_broker in
      reading id (record s { message_broker = broker }) (hub-IsServing broker s refl h)
  publish_outcome-Reads id json_exception s h = reading id s h
  publish_outcome-Reads id not_handled s h = reading id s h

  handle_reception-Reads :
      (id : ℕ) (t : S.Text) (a : Answer) (s : Server S.Text)
      → IsServing s
      → Reads id (handle_reception S id t a s)
  unfolding publish_player_connectivity_message
  handle_reception-Reads id t (returned (suc n)) s h =
      publish_outcome-Reads id (S.deserialize t) s h
  handle_reception-Reads id t (returned zero) s h = record {
    before = s.connected_clients;
    clients = inr refl;
    callbacks = h.callbacks;
    ascending = h.ascending;
    live = h.live;
    listens = h.listens;
    platform = h.platform;
  }
  handle_reception-Reads id t (failed would_block) s h = reading id s h
  handle_reception-Reads id t (failed (error_of e)) s h =
      let broker = publish_player_connectivity_message (disconnect_of id) s.message_broker in
      simp h.platform (hub-IsServing broker s refl h)

  pub receive_from_network-Reads :
      (c : ConnectedClient) (s : Server S.Text)
      → IsServing s
      → Reads c.id (receive_from_network S c s)
  unfolding receive_from_network
  receive_from_network-Reads c s h =
      handle_reception-Reads c.id (s.system.bytes s.system.made)
        (s.system.answer s.system.made (recv_from c))
        (record s { system = called (recv_from c) s.system })
        (system-IsServing (called (recv_from c) s.system) s refl h)
