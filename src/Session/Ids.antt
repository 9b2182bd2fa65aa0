-- ===== src/Session/Ids.antt =====
-- The ids that the server hands out, however the two threads take turns.
use samurai_kirby_server.Prelude.{
  ℕ, suc, ◌≤◌, ◌<◌, ◌≡◌, refl, sym, ap, subst, some, false, List, [], ◌∷◌, All, ◌==◌, arith,
}
use samurai_kirby_server.Prelude.UnorderedMap.{at, among, has_key}
use samurai_kirby_server.Exec.{Result, ok, err, continue}
use samurai_kirby_server.Environment.{
  Environment, MessageHub, subscribe_to_player_connectivity_messages,
}
use samurai_kirby_server.Serializer.Interface.{Serializer}
use samurai_kirby_server.Sockets.{System, unix}
use samurai_kirby_server.Sockets.Server.{ServerSocket, open_server_socket}
use samurai_kirby_server.Network.Quiet.{IsQuiet, entries-others}
use samurai_kirby_server.Network.{Server, ConnectedClient, find_client}
use samurai_kirby_server.Network.Serving.{
  start_listening, keep_socket, new_server, communicate, handle_new_client_connection,
  listening_port,
}
use samurai_kirby_server.Network.Clients.{Ascending, Ascending-bound}
use samurai_kirby_server.Network.Strangers.{
  communicate-Remains, handle_new_client_connection-Passes,
}
use samurai_kirby_server.Room.Validity.{DrawsInRange}
use samurai_kirby_server.Gameplay.{Gameplay, new_gameplay, new_room_manager}
use samurai_kirby_server.Gameplay.Strangers.{
  IsUnknown, dispatch_messages-IsUnknown, tick_all_rooms-IsUnknown,
}
use samurai_kirby_server.Session.Turns.{
  main, main-made, listening, made, World, Turn, accepts, serves, dispatches, ticks, run, begin,
  Reach, here, next, takes, hub_of, gameplay_with,
}
use samurai_kirby_server.Session.Interleaving.{IsSound, reachable-Ends}

-- Only a client that is there is served.
abbrev pub IsConnected : {Text : Type 0} → Turn → World Text → Type 0
IsConnected (serves client) w = find_client client.id w.server.connected_clients ≡ some client
IsConnected accepts w = Unit {0}
IsConnected dispatches w = Unit {0}
IsConnected ticks w = Unit {0}

found_bound :
    (id k n : ℕ) (cs : List ConnectedClient) (c : ConnectedClient)
    → Ascending k cs n
    → find_client id cs ≡ some c
    → id < n
found_bound id k n [] c up found = cc
found_bound id k n (d ∷ rest) c (least, up) found =
    ground
      (arith, found, Ascending-bound (suc d.id) n rest up, found_bound id (suc d.id) n rest c up)

IsUnknown-IsQuiet : (j : ℕ) (g : Gameplay) → IsUnknown j g → IsQuiet j g.env.hub
IsUnknown-IsQuiet j g h = record {
  mail = h.stranger.mail;
  actions = h.actions;
  connections = h.connections;
}

IsQuiet-IsUnknown :
    (j : ℕ) (hub : MessageHub) (g : Gameplay)
    → IsUnknown j g
    → IsQuiet j hub
    → IsUnknown j (gameplay_with hub g)
IsQuiet-IsUnknown j hub g h q = record {
  stranger = record { absent = h.stranger.absent; mail = q.mail; heard = h.stranger.heard };
  actions = q.actions;
  connections = q.connections;
}

module _ {Text : Type 0} where
  -- Both threads have the same hub, and the gameplay knows no id from the server's next one on.
  pub record IsFresh (w : World Text) : Type 0 where
    pub shared : hub_of w.server ≡ w.gameplay.env.hub
    pub unknown : (j : ℕ) → w.server.next_client_id ≤ j → IsUnknown j w.gameplay

  IsQuiet-from :
      (w : World Text) (j : ℕ)
      → IsFresh w
      → w.server.next_client_id ≤ j
      → IsQuiet j (hub_of w.server)
  IsQuiet-from w j h later =
      subst (IsQuiet j) (sym h.shared) (IsUnknown-IsQuiet j w.gameplay (h.unknown j later))

  network-IsFresh :
      (w : World Text) (s : Server Text)
      → IsFresh w
      → w.server.next_client_id ≤ s.next_client_id
      → ((j : ℕ) → s.next_client_id ≤ j → IsQuiet j (hub_of w.server) → IsQuiet j (hub_of s))
      → IsFresh (record { server = s; gameplay = gameplay_with (hub_of s) w.gameplay })
  network-IsFresh w s h le quiet = record {
    shared = refl;
    unknown = λ j later.
        IsQuiet-IsUnknown j (hub_of s) w.gameplay (h.unknown j (omega arith))
          (quiet j later (IsQuiet-from w j h (omega arith)));
  }

module _ (S : Serializer) where
  run-IsFresh :
      (t : Turn) (w : World S.Text)
      → IsSound w
      → IsConnected t w
      → (run S t w).0 ≡ ok tt
      → IsFresh w
      → IsFresh (run S t w).1
  run-IsFresh accepts w sound there good h =
      let o = handle_new_client_connection S w.server in
      let p = handle_new_client_connection-Passes S 0 w.server in
      network-IsFresh w o.1 h p.earlier
        λ j later q. (handle_new_client_connection-Passes S j w.server).quiet later q
  run-IsFresh (serves c) w sound there good h =
      let s = w.server in
      let o = communicate S (c ∷ []) s in
      let bound =
        found_bound c.id 0 s.next_client_id s.connected_clients c sound.serving.ascending there in
      let n = s.next_client_id in
      let serve = λ (j : ℕ) (later : n ≤ j).
        communicate-Remains S j c s sound.serving later bound (IsQuiet-from w j h later) in
      let same = (serve n (omega arith)).next_id in
      network-IsFresh w o.1 h (omega (arith, same))
        λ j later q. (serve j (omega (arith, same, later))).quiet
  run-IsFresh dispatches w sound there good h = record {
    shared = refl;
    unknown = λ j later.
        dispatch_messages-IsUnknown j w.gameplay sound.valid sound.callback (h.unknown j later)
          good;
  }
  run-IsFresh ticks w sound there good h = record {
    shared = refl;
    unknown = λ j later.
        tick_all_rooms-IsUnknown j w.gameplay sound.draws sound.valid (h.unknown j later);
  }

  -- Until the first client comes, the hub is empty.
  opened-IsQuiet :
      (j : ℕ) (system : System S.Text) (o : Result ServerSocket × System S.Text)
      → IsQuiet j
          (hub_of (continue o.0 (record (new_server S system) { system = o.1 }) (keep_socket S)).1)
  unfolding at
  opened-IsQuiet j system (ok v, t) = record { mail = refl; actions = refl; connections = tt }
  opened-IsQuiet j system (err x, t) = record { mail = refl; actions = refl; connections = tt }

  begun-IsQuiet : (j : ℕ) (system : System S.Text) → IsQuiet j (hub_of (listening S system).1)
  unfolding start_listening
  begun-IsQuiet j system = opened-IsQuiet j system (open_server_socket listening_port system)

  made-IsFresh :
      (system : System S.Text) (e : Environment)
      → e.subscriptions ≡ []
      → IsFresh (made S (listening S system).1 e)
  unfolding new_gameplay new_room_manager subscribe_to_player_connectivity_messages among
  made-IsFresh system e none_yet = record {
    shared = refl;
    unknown = λ j later.
        let q = begun-IsQuiet j system in
        record {
          stranger = record { absent = tt; mail = q.mail; heard = ap (has_key j) none_yet };
          actions = q.actions;
          connections = q.connections;
        };
  }

  begun-IsFresh :
      (system : System S.Text) (e : Environment)
      → system.api.platform ≡ unix
      → e.subscriptions ≡ []
      → IsFresh (begin S system e)
  begun-IsFresh system e platform none_yet =
      subst (λ (r : Result (Unit {0}) × World S.Text). IsFresh r.1)
        (sym (main-made S system e platform)) (made-IsFresh system e none_yet)

  Reach-IsFresh :
      (system : System S.Text) (e : Environment) {w : World S.Text}
      → system.api.platform ≡ unix
      → (main S system e).0 ≡ ok tt
      → DrawsInRange e
      → e.subscriptions ≡ []
      → Reach S IsConnected (begin S system e) w
      → IsFresh w
  Reach-IsFresh system e platform begun draws none_yet here =
      begun-IsFresh system e platform none_yet
  Reach-IsFresh system e platform begun draws none_yet (next r (takes t v there good)) =
      run-IsFresh t v (reachable-Ends S IsConnected system e t platform begun draws r).0 there good
        (Reach-IsFresh system e platform begun draws none_yet r)

  -- Start the program elsewhere than on Windows, with the server's socket opened, draws between
  -- their bounds and no callback subscribed to actions, and let the threads take turns in any order
  -- and whatever the system answers, as long as no turn ends either of them, each client that is
  -- served being connected. Then no id from the server's next one on is known: it sits in no room,
  -- no callback listens to it, in the hub no message waits for it, no action of it and no news of its
  -- connection, and no callback of the network's broker is for it.
  pub reachable-IsUnknown :
      (system : System S.Text) (e : Environment) {w : World S.Text} (j : ℕ)
      → system.api.platform ≡ unix
      → (main S system e).0 ≡ ok tt
      → DrawsInRange e
      → e.subscriptions ≡ []
      → Reach S IsConnected (begin S system e) w
      → w.server.next_client_id ≤ j
      → IsUnknown j w.gameplay
        × All (λ (c : ℕ × ℕ). (c.0 == j) ≡ false) w.server.message_broker.gameplay_message_callbacks
  reachable-IsUnknown system e {w} j platform begun draws none_yet r later =
      let s = w.server in
      let sound = (reachable-Ends S IsConnected system e ticks platform begun draws r).0 in
      (
        (Reach-IsFresh system e platform begun draws none_yet r).unknown j later,
        subst (All (λ (c : ℕ × ℕ). (c.0 == j) ≡ false)) (sym sound.serving.callbacks)
            (entries-others j 0 s.next_client_id s.connected_clients later sound.serving.ascending),
      )
