-- ===== src/Network/Invariant.antt =====
-- What holds of the server whenever its loop comes round, elsewhere than on Windows.
use samurai_kirby_server.Prelude.{ℕ, true, false, List, ◌≡◌, sym, ap, ◌∙◌, ◌⊎◌, has_value, inl, inr}
use samurai_kirby_server.Exec.{
  Result, ok, err, Exec, runtime_error, undefined_behaviour, bad_optional_access, bad_function_call,
  serialize_exception, continue,
}
use samurai_kirby_server.Sockets.{System, unix}
use samurai_kirby_server.Network.{Server, ConnectedClient, NetworkMessageBroker}
use samurai_kirby_server.Network.Serving.{mark_disconnected, is_disconnected, erase_client}
use samurai_kirby_server.Network.Clients.{
  entries, Ascending, AllLive, entries-mark, Ascending-mark, erase-mark, AllLive-mark, AllFound,
  AllFound-entries,
}
use samurai_kirby_server.Network.Dispatch.{Keeps}

module _ {Text : Type 0} where
  -- The callbacks are those of the clients, in their order; the ids of the clients go up, and stay
  -- below the next one; no client has been disconnected; the server listens.
  pub record IsServing (s : Server Text) : Type 0 where
    pub callbacks : s.message_broker.gameplay_message_callbacks ≡ entries s.connected_clients
    pub ascending : Ascending 0 s.connected_clients s.next_client_id
    pub live : AllLive s.connected_clients
    pub listens : has_value s.server_socket ≡ true
    pub platform : s.system.api.platform ≡ unix

  -- A call leaves the server so, also where it throws a runtime_error; it throws nothing else but
  -- the SerializeException.
  abbrev pub Serves : Result (Unit {0}) × Server Text → Type 0
  Serves (ok a, s) = IsServing s
  Serves (err runtime_error, s) = IsServing s
  Serves (err serialize_exception, s) = Unit {0}
  Serves (err undefined_behaviour, s) = ⊥
  Serves (err bad_optional_access, s) = ⊥
  Serves (err bad_function_call, s) = ⊥

  pub continue-Serves :
      (o : Result (Unit {0}) × Server Text) (k : Exec (Server Text) (Unit {0}))
      → Serves o
      → ((t : Server Text) → IsServing t → Serves (k t))
      → Serves (continue o.0 o.1 (λ _. k))
  continue-Serves (ok a, t) k h later = later t h
  continue-Serves (err runtime_error, t) k h later = h
  continue-Serves (err serialize_exception, t) k h later = tt
  continue-Serves (err undefined_behaviour, t) k h later = h
  continue-Serves (err bad_optional_access, t) k h later = h
  continue-Serves (err bad_function_call, t) k h later = h

  Keeps-IsServing : (s t : Server Text) → Keeps s t → IsServing s → IsServing t
  Keeps-IsServing s t k h = record {
    callbacks = k.callbacks ∙ h.callbacks ∙ ap entries (sym k.clients);
    ascending = rw (k.clients, k.next_id) h.ascending;
    live = rw k.clients h.live;
    listens = ap has_value k.socket ∙ h.listens;
    platform = ap (λ a. a.platform) k.api ∙ h.platform;
  }

  pub hub-IsServing :
      (b : NetworkMessageBroker) (s : Server Text)
      → b.gameplay_message_callbacks ≡ s.message_broker.gameplay_message_callbacks
      → IsServing s
      → IsServing (record s { message_broker = b })
  hub-IsServing b s e h = record {
    callbacks = e ∙ h.callbacks;
    ascending = h.ascending;
    live = h.live;
    listens = h.listens;
    platform = h.platform;
  }

  pub system-IsServing :
      (system : System Text) (s : Server Text)
      → system.api ≡ s.system.api
      → IsServing s
      → IsServing (record s { system = system })
  system-IsServing system s e h = record {
    callbacks = h.callbacks;
    ascending = h.ascending;
    live = h.live;
    listens = h.listens;
    platform = ap (λ a. a.platform) e ∙ h.platform;
  }

  -- The server while a client is read: it may be the one that is marked as disconnected.
  pub record IsReading (id : ℕ) (s : Server Text) : Type 0 where
    pub before : List ConnectedClient
    pub clients :
        (s.connected_clients ≡ before) ⊎ (s.connected_clients ≡ mark_disconnected id before)
    pub callbacks : s.message_broker.gameplay_message_callbacks ≡ entries before
    pub ascending : Ascending 0 before s.next_client_id
    pub live : AllLive before
    pub listens : has_value s.server_socket ≡ true
    pub platform : s.system.api.platform ≡ unix

  pub Keeps-IsReading : (id : ℕ) (s t : Server Text) → Keeps s t → IsReading id s → IsReading id t
  Keeps-IsReading id s t k h = record {
    before = h.before;
    clients = elim h.clients [ inl e ↦ inl (k.clients ∙ e) | inr e ↦ inr (k.clients ∙ e) ];
    callbacks = k.callbacks ∙ h.callbacks;
    ascending = rw k.next_id h.ascending;
    live = h.live;
    listens = ap has_value k.socket ∙ h.listens;
    platform = ap (λ a. a.platform) k.api ∙ h.platform;
  }

  pub erased :
      (id : ℕ) (s : Server Text) (h : IsReading id s)
      → erase_client id s.connected_clients ≡ erase_client id h.before
  erased id s h = elim h.clients [
    | inl e ↦ ap (erase_client id) e
    | inr e ↦ ap (erase_client id) e ∙ erase-mark id h.before
  ]

  -- A reading after which the client is not found disconnected has not marked it.
  pub settled :
      (id : ℕ) (s : Server Text)
      → IsReading id s
      → is_disconnected id s.connected_clients ≡ false
      → IsServing s
  settled id s h absent = record {
    callbacks = elim h.clients [
      | inl e ↦ h.callbacks ∙ ap entries (sym e)
      | inr e ↦ h.callbacks ∙ sym (ap entries e ∙ entries-mark id h.before)
    ];
    ascending = elim h.clients [
      | inl e ↦ rw e h.ascending
      | inr e ↦ rw e (Ascending-mark id 0 s.next_client_id h.before h.ascending)
    ];
    live = elim h.clients [
      | inl e ↦ rw e h.live
      | inr e ↦ rw e (AllLive-mark id h.before h.live (ap (is_disconnected id) (sym e) ∙ absent))
    ];
    listens = h.listens;
    platform = h.platform;
  }

  -- Each callback belongs to a client, also while one is marked.
  pub found :
      (id : ℕ) (s : Server Text)
      → IsReading id s
      → AllFound s.message_broker.gameplay_message_callbacks s.connected_clients
  found id s h = elim h.clients [
    | inl e ↦ rw (h.callbacks, e) (AllFound-entries h.before)
    | inr e ↦
        rw (h.callbacks ∙ sym (entries-mark id h.before), e)
          (AllFound-entries (mark_disconnected id h.before))
  ]
