-- ===== src/Network/Strangers.antt =====
-- What the steps of the network's loop put into the hub for an id that was not handed out yet.
use samurai_kirby_server.Prelude.{
  ℕ, zero, suc, ◌≤◌, ◌<◌, ◌≡◌, refl, sym, ◌∙◌, subst, Option, none, some, false, inl, inr,
  Bool-cases, [], ◌∷◌, ◌++◌, All, All-append, ◌==◌, arith,
}
use samurai_kirby_server.Prelude.UnorderedMap.{at-update}
use samurai_kirby_server.Exec.{Exec, Result, ok, err, continue}
use samurai_kirby_server.Messages.{PlayerActionMessage}
use samurai_kirby_server.Serializer.{Outcome, done, json_exception, not_handled}
use samurai_kirby_server.Serializer.Interface.{Serializer}
use samurai_kirby_server.Sockets.{System, Answer, returned, failed, would_block, error_of, called}
use samurai_kirby_server.Sockets.Client.{ClientSocket, close_client_socket, accept_connection}
use samurai_kirby_server.Sockets.Server.{ServerSocket}
use samurai_kirby_server.Network.Quiet.{IsQuiet, QuietIn, entries-others, dispatch_messages-QuietIn}
use samurai_kirby_server.Network.{
  Server, ConnectedClient, dispatch_messages, publish_player_action_message,
  publish_player_connectivity_message, subscribe_to_gameplay_messages_for_player,
  unsubscribe_to_gameplay_messages_for_player,
}
use samurai_kirby_server.Network.Serving.{
  publish_outcome, handle_reception, receive_from_network, destroy_client, erase_if_disconnected,
  communicate, add_client, add_accepted, accept_on, handle_new_client_connection, disconnect_of,
  is_disconnected,
}
use samurai_kirby_server.Network.Failures.{recv_from}
use samurai_kirby_server.Network.Dispatch.{dispatch_messages-Dispatches}
use samurai_kirby_server.Network.Invariant.{IsServing, IsReading, found}
use samurai_kirby_server.Network.Reading.{Reads, receive_from_network-Reads}

module _ (S : Serializer) where
  -- A step hands out no id, and leaves nothing for `j` in the hub.
  pub record Remains (j : ℕ) (s t : Server S.Text) : Type 0 where
    pub next_id : t.next_client_id ≡ s.next_client_id
    pub quiet : QuietIn j t

  publish_outcome-Remains :
      (j id : ℕ) (o : Outcome PlayerActionMessage) (s : Server S.Text)
      → (id == j) ≡ false
      → QuietIn j s
      → Remains j s (publish_outcome S id o s).1
  unfolding publish_player_action_message
  publish_outcome-Remains j id (done m) s o h = record {
    next_id = refl;
    quiet = record {
      mail = h.mail;
      actions =
          at-update [] id j (λ queue. queue ++ m ∷ [])
            s.message_broker.message_hub.player_action_messages_by_player_id
          ∙ rw o h.actions;
      connections = h.connections;
    };
  }
  publish_outcome-Remains j id json_exception s o h = record { next_id = refl; quiet = h }
  publish_outcome-Remains j id not_handled s o h = record { next_id = refl; quiet = h }

  connectivity-IsQuiet :
      (j id : ℕ) (s : Server S.Text)
      → (id == j) ≡ false
      → QuietIn j s
      → IsQuiet j
          (publish_player_connectivity_message (disconnect_of id) s.message_broker).message_hub
  unfolding publish_player_connectivity_message
  connectivity-IsQuiet j id s o h = record {
    mail = h.mail;
    actions = h.actions;
    connections =
        All-append (λ m. (m.player_id == j) ≡ false)
          s.message_broker.message_hub.player_connectivity_messages (disconnect_of id ∷ [])
          h.connections (o, tt);
  }

  handle_reception-Remains :
      (j id : ℕ) (t : S.Text) (a : Answer) (s : Server S.Text)
      → (id == j) ≡ false
      → QuietIn j s
      → Remains j s (handle_reception S id t a s).1
  handle_reception-Remains j id t (returned (suc n)) s o h =
      publish_outcome-Remains j id (S.deserialize t) s o h
  handle_reception-Remains j id t (returned zero) s o h = record {
    next_id = refl;
    quiet = connectivity-IsQuiet j id s o h;
  }
  handle_reception-Remains j id t (failed would_block) s o h = record { next_id = refl; quiet = h }
  handle_reception-Remains j id t (failed (error_of e)) s o h = record {
    next_id = refl;
    quiet = connectivity-IsQuiet j id s o h;
  }

  receive_from_network-Remains :
      (j : ℕ) (c : ConnectedClient) (s : Server S.Text)
      → (c.id == j) ≡ false
      → QuietIn j s
      → Remains j s (receive_from_network S c s).1
  unfolding receive_from_network
  receive_from_network-Remains j c s o h =
      let r =
        handle_reception-Remains j c.id (s.system.bytes s.system.made)
          (s.system.answer s.system.made (recv_from c))
          (record s { system = called (recv_from c) s.system }) o
          (record { mail = h.mail; actions = h.actions; connections = h.connections }) in
      record { next_id = r.next_id; quiet = r.quiet }

  erase_if_disconnected-Remains :
      (j : ℕ) (c : ConnectedClient) (s : Server S.Text)
      → QuietIn j s
      → Remains j s (erase_if_disconnected S c s).1
  unfolding erase_if_disconnected destroy_client unsubscribe_to_gameplay_messages_for_player
      close_client_socket
  erase_if_disconnected-Remains j c s h =
      elim (Bool-cases (is_disconnected c.id s.connected_clients)) [
        | inl e ↦ rw e (record {
          next_id = refl;
          quiet = record { mail = h.mail; actions = h.actions; connections = h.connections };
        })
        | inr e ↦ rw e (record { next_id = refl; quiet = h })
      ]

  Remains-trans : (j : ℕ) (s t u : Server S.Text) → Remains j s t → Remains j t u → Remains j s u
  Remains-trans j s t u h k = record { next_id = k.next_id ∙ h.next_id; quiet = k.quiet }

  continue-Remains :
      (j : ℕ) (s : Server S.Text) (o : Result (Unit {0}) × Server S.Text)
      (k : Exec (Server S.Text) (Unit {0}))
      → Remains j s o.1
      → (o.0 ≡ ok tt → Remains j o.1 (k o.1).1)
      → Remains j s (continue o.0 o.1 (λ _. k)).1
  continue-Remains j s (ok a, t) k h later = Remains-trans j s t (k t).1 h (later refl)
  continue-Remains j s (err x, t) k h later = h

  read_well :
      (id : ℕ) (o : Result (Unit {0}) × Server S.Text)
      → o.0 ≡ ok tt
      → Reads S id o
      → IsReading id o.1
  read_well id (ok a, t) good h = h
  read_well id (err x, t) good h = absurd (ground (arith, good))

  -- One client is served.
  pub communicate-Remains :
      (j : ℕ) (c : ConnectedClient) (s : Server S.Text)
      → IsServing s
      → s.next_client_id ≤ j
      → c.id < s.next_client_id
      → QuietIn j s
      → Remains j s (communicate S (c ∷ []) s).1
  unfolding communicate
  communicate-Remains j c s serves le lt h =
      let o = receive_from_network S c s in
      let read = receive_from_network-Remains j c s (ground arith) h in
      continue-Remains j s o _ read λ good.
        let reading = read_well c.id o good (receive_from_network-Reads S c s serves) in
        let others = subst (All (λ (e : ℕ × ℕ). (e.0 == j) ≡ false)) (sym reading.callbacks) (
          entries-others j 0 o.1.next_client_id reading.before (omega (arith, read.next_id))
            reading.ascending) in
        let sent = dispatch_messages S o.1 in
        let keeps = (dispatch_messages-Dispatches S o.1 (found c.id o.1 reading)).1 in
        continue-Remains j o.1 sent _
          (record {
            next_id = keeps.next_id;
            quiet = dispatch_messages-QuietIn S j o.1 others read.quiet;
          })
          λ _.
            continue-Remains j sent.1 (erase_if_disconnected S c sent.1) _
              (erase_if_disconnected-Remains j c sent.1
                (dispatch_messages-QuietIn S j o.1 others read.quiet))
              λ _. record {
                next_id = refl;
                quiet =
                    (erase_if_disconnected-Remains j c sent.1
                      (dispatch_messages-QuietIn S j o.1 others read.quiet)).quiet;
              }

  -- After a step the next id is no smaller, and nothing in the hub is for the id `j` where it is still to be handed out.
  pub record Passes (j : ℕ) (s t : Server S.Text) : Type 0 where
    pub earlier : s.next_client_id ≤ t.next_client_id
    pub quiet : t.next_client_id ≤ j → QuietIn j s → QuietIn j t

  add_client-Passes : (j : ℕ) (c : ClientSocket) (s : Server S.Text) → Passes j s (add_client S c s)
  unfolding add_client subscribe_to_gameplay_messages_for_player publish_player_connectivity_message
  add_client-Passes j c s = record {
    earlier = omega arith;
    quiet = λ le h. record {
      mail = h.mail;
      actions = h.actions;
      connections =
          All-append (λ m. (m.player_id == j) ≡ false)
            s.message_broker.message_hub.player_connectivity_messages _ h.connections
            (ground (arith, le), tt);
    };
  }

  accepted-Passes :
      (j : ℕ) (o : Result (Option ClientSocket) × System S.Text) (s : Server S.Text)
      → Passes j s (continue o.0 (record s { system = o.1 }) (add_accepted S)).1
  accepted-Passes j (ok none, t) s = record {
    earlier = omega arith;
    quiet = λ _ h. record { mail = h.mail; actions = h.actions; connections = h.connections };
  }
  accepted-Passes j (ok (some c), t) s =
      let p = add_client-Passes j c (record s { system = t }) in
      record {
        earlier = p.earlier;
        quiet = λ le h.
            p.quiet le (record { mail = h.mail; actions = h.actions; connections = h.connections });
      }
  accepted-Passes j (err x, t) s = record {
    earlier = omega arith;
    quiet = λ _ h. record { mail = h.mail; actions = h.actions; connections = h.connections };
  }

  accept_on-Passes :
      (j : ℕ) (v : Option ServerSocket) (s : Server S.Text) → Passes j s (accept_on S v s).1
  accept_on-Passes j none s = record { earlier = omega arith; quiet = λ _ h. h }
  accept_on-Passes j (some v) s = accepted-Passes j (accept_connection v s.system) s

  pub handle_new_client_connection-Passes :
      (j : ℕ) (s : Server S.Text) → Passes j s (handle_new_client_connection S s).1
  unfolding handle_new_client_connection
  handle_new_client_connection-Passes j s = accept_on-Passes j s.server_socket s
