-- ===== src/Session/Answers.antt =====
-- The way of a new player through both threads and back: the text of its JOIN_GAME comes in over the
-- socket, and the text that it has joined goes out.
use samurai_kirby_server.Prelude.{
  ℕ, suc, String, Option, some, true, false, List, [], ◌∷◌, ◌++◌, map, ◌≡◌, refl, sym, ap, ◌∙◌,
  subst, All, All-last, arith,
}
use samurai_kirby_server.Exec.{
  Result, ok, err, is_ok, runtime_error, undefined_behaviour, bad_optional_access,
  bad_function_call, serialize_exception,
}
use samurai_kirby_server.Player.{GameDifficulty, PlayerAssignment, PlayerLobbyDto}
use samurai_kirby_server.Messages.{GameplayMessage, join_game, room_joined}
use samurai_kirby_server.Environment.{MessageHub, gameplay_callback}
use samurai_kirby_server.Json.{JsonLibrary, IsLawful}
use samurai_kirby_server.Serializer.Contract.{IsWireAction, action_json, read_gameplay_message}
use samurai_kirby_server.Serializer.Interface.{Serializer, json_serializer}
use samurai_kirby_server.Sockets.{returned}
use samurai_kirby_server.Sockets.Client.{ClientSocket}
use samurai_kirby_server.Network.{
  Server, ConnectedClient, queue_of, dispatch_messages, publish_player_connectivity_message,
  subscribe_to_gameplay_messages_for_player,
}
use samurai_kirby_server.Network.Serving.{add_client, receive_from_network, is_disconnected}
use samurai_kirby_server.Network.Clients.{AllLive}
use samurai_kirby_server.Network.Failures
use samurai_kirby_server.Network.Failures.{recv_from}
use samurai_kirby_server.Network.Invariant.{IsServing, hub-IsServing, settled}
use samurai_kirby_server.Network.Reading.{Reads, receive_from_network-Reads}
use samurai_kirby_server.Network.Safety.{add_client-IsServing}
use samurai_kirby_server.Network.Passage.{action_arrives, AreDumped, announcements_arrive}
use samurai_kirby_server.Network.Queues.{AreDelivered}
use samurai_kirby_server.Room.Mailbox.{mailbox}
use samurai_kirby_server.RoomManager.{Lobby}
use samurai_kirby_server.RoomManager.Soundness.{AreLive}
use samurai_kirby_server.RoomManager.Welcome.{IsWelcomed}
use samurai_kirby_server.Gameplay
use samurai_kirby_server.Gameplay.Newcomers.{OthersAreQuiet, Joins}
use samurai_kirby_server.Session.{newcomer, hub_after, text_seats_newcomer}
use samurai_kirby_server.Session.Turns.{server_with}

AllLive-is_disconnected :
    (id : ℕ) (cs : List ConnectedClient) → AllLive cs → is_disconnected id cs ≡ false
AllLive-is_disconnected id [] live = refl
AllLive-is_disconnected id (c ∷ rest) (here, live) =
    ground (arith, AllLive-is_disconnected id rest live)

module _ (S : Serializer) where
  -- A reading that returns, and after which all clients are live, leaves the server serving.
  read-IsServing :
      (id : ℕ) (o : Result (Unit {0}) × Server S.Text)
      → is_ok o.0 ≡ true
      → Reads S id o
      → AllLive o.1.connected_clients
      → IsServing o.1
  read-IsServing id (ok a, t) good h live =
      settled id t h (AllLive-is_disconnected id t.connected_clients live)
  read-IsServing id (err runtime_error, t) good h live = h
  read-IsServing id (err serialize_exception, t) good h live = absurd h
  read-IsServing id (err undefined_behaviour, t) good h live = absurd h
  read-IsServing id (err bad_optional_access, t) good h live = absurd h
  read-IsServing id (err bad_function_call, t) good h live = absurd h

module _ (L : JsonLibrary) where
  -- The server after it has taken on a client, has read from it, and has been left this hub.
  abbrev pub server_after : ClientSocket → Server L.Text → MessageHub → Server L.Text
  server_after socket s hub =
      server_with hub
        (receive_from_network (json_serializer L) (newcomer L socket s)
          (add_client (json_serializer L) socket s)).1

  -- From the texts a client of the contract reads the messages `mail`, then that it has
  -- joined a room, and then maybe more.
  pub record IsAnswered (mail : List GameplayMessage) (texts : List L.Text) : Type 0 where
    pub slot : PlayerAssignment
    pub other_player : Option PlayerLobbyDto
    pub later : List GameplayMessage
    pub reads :
        map (read_gameplay_message L) texts
        ≡ map some (mail ++ room_joined slot other_player ∷ later)

  IsWelcomed-IsAnswered :
      (mail queue : List GameplayMessage) (texts : List L.Text)
      → IsWelcomed mail queue
      → map (read_gameplay_message L) texts ≡ map some queue
      → IsAnswered mail texts
  IsWelcomed-IsAnswered mail queue texts w h = record {
    slot = w.slot;
    other_player = w.other_player;
    later = w.later;
    reads = h ∙ ap (map some) w.mail;
  }

  -- What becomes of the JOIN_GAME: the player is seated, and the texts that are sent are read.
  pub record Answers (id : ℕ) (d : GameDifficulty) (texts : ℕ → List L.Text) (l : Lobby)
      (s : Server L.Text) : Type 0 where
    pub dispatched : is_ok (Gameplay.dispatch_messages l).0 ≡ true
    pub joins : Joins id d l.rooms (mailbox id l.env) (Gameplay.dispatch_messages l).1
    pub sent : is_ok (dispatch_messages (json_serializer L) s).0 ≡ true
    pub delivered :
        AreDelivered
          (json_serializer L)
          texts
          s.connected_clients
          s
          (dispatch_messages (json_serializer L) s).1
    pub answered : IsAnswered (mailbox id l.env) (texts id)

module _ (L : JsonLibrary) (laws : IsLawful L) where
  server_after-clients :
      (socket : ClientSocket) (n : ℕ) (nickname : String) (d : GameDifficulty) (s : Server L.Text)
      (hub : MessageHub)
      → s.system.answer s.system.made (recv_from (newcomer L socket s)) ≡ returned (suc n)
      → L.dump (action_json L (join_game nickname d)) ≡ some (s.system.bytes s.system.made)
      → IsWireAction (join_game nickname d)
      → IsServing s
      → IsServing (server_after L socket s hub)
        × ((server_after L socket s hub).connected_clients
            ≡ s.connected_clients ++ newcomer L socket s ∷ [])
  unfolding add_client publish_player_connectivity_message subscribe_to_gameplay_messages_for_player
  server_after-clients socket n nickname d s hub given dumped wire h =
      let S = json_serializer L in
      let c = newcomer L socket s in
      let added = add_client S socket s in
      let o = receive_from_network S c added in
      let read = action_arrives L laws c n (join_game nickname d) added given dumped wire in
      let serves = add_client-IsServing S socket s h in
      let after =
        read-IsServing S c.id o read.0 (receive_from_network-Reads S c added serves)
          (subst AllLive (sym read.1.clients) serves.live) in
      (hub-IsServing (server_with hub o.1).message_broker o.1 refl after, read.1.clients)

  -- Let the server serve and take on a client whose id has no waiting action, while no connection
  -- waits, and read from its socket the text that a client of the contract dumps of a JOIN_GAME
  -- whose difficulty is an enumerator or another number of 32 bits. Let the gameplay, whose callback is subscribed, find this
  -- hub, with every room valid and not empty, and with no waiting action of the players that it
  -- listens to, which are others; and let the network's next dispatch find the hub that the
  -- gameplay's dispatch leaves, and only messages that can be dumped, whose inputs are
  -- enumerators or other numbers of 32 bits, and whose times fit in 32 bits. Then both dispatches throw nothing; the player sits in a room as in
  -- `RoomManager.Matchmaking.add_player_to_room-IsMatched`; all clients have been sent the texts
  -- of their queues, which are empty; and from its texts the new player's client reads what waited
  -- for the player before, then that it has joined a room, and then maybe more.
  pub join_is_answered :
      (socket : ClientSocket) (n : ℕ) (nickname : String) (d : GameDifficulty) (s : Server L.Text)
      (l : Lobby) (texts : ℕ → List L.Text)
      → s.message_broker.message_hub.player_connectivity_messages ≡ []
      → Failures.actions_of s.next_client_id s ≡ []
      → s.system.answer s.system.made (recv_from (newcomer L socket s)) ≡ returned (suc n)
      → L.dump (action_json L (join_game nickname d)) ≡ some (s.system.bytes s.system.made)
      → IsWireAction (join_game nickname d)
      → l.env.hub ≡ hub_after L socket s
      → l.env.connectivity_callback ≡ some gameplay_callback
      → OthersAreQuiet s.next_client_id l.env
      → AreLive l.rooms
      → IsServing s
      → (let t = server_after L socket s (Gameplay.dispatch_messages l).1.env.hub in
          All (λ c. AreDumped L laws (queue_of c.id t) (texts c.id)) t.connected_clients)
      → Answers L s.next_client_id d texts l
          (server_after L socket s (Gameplay.dispatch_messages l).1.env.hub)
  join_is_answered socket n nickname d s l texts none_waits empty given dumped wire shared callback
        quiet a serves waiting =
      let hub = (Gameplay.dispatch_messages l).1.env.hub in
      let t = server_after L socket s hub in
      let seated =
        text_seats_newcomer L laws socket n nickname d s l none_waits empty given dumped wire shared
          callback quiet a in
      let after = server_after-clients socket n nickname d s hub given dumped wire serves in
      let arrives = announcements_arrive L laws texts t after.0 waiting in
      record {
        dispatched = seated.0;
        joins = seated.1;
        sent = arrives.0;
        delivered = arrives.1;
        answered =
            IsWelcomed-IsAnswered L _ (queue_of s.next_client_id t) (texts s.next_client_id)
              seated.1.welcomed
              (All-last _ s.connected_clients (newcomer L socket s)
                (subst (All _) after.1 arrives.2));
      }
