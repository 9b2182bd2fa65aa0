-- ===== src/Session/Turns.antt =====
-- main.cpp, and the two threads of network/Server.cpp on one hub (messages/MessageHub.h), interleaved: the steps of
-- the network's loop come between the dispatches and the ticks of the gameplay's in any order.
use samurai_kirby_server.Prelude.{ℕ, ◌≡◌, refl, [], ◌∷◌}
use samurai_kirby_server.Exec.{Exec, Result, ok, continue}
use samurai_kirby_server.Environment.{Environment, MessageHub}
use samurai_kirby_server.Serializer.Interface.{Serializer}
use samurai_kirby_server.Sockets.{System, unix}
use samurai_kirby_server.Network.{Server, ConnectedClient}
use samurai_kirby_server.Network.Serving.{
  caught, communicate, handle_new_client_connection, new_server, init_network, start_listening,
  listening_port,
}
use samurai_kirby_server.Network.Program.{init_network-unix}
use samurai_kirby_server.RoomManager.{tick_all_rooms}
use samurai_kirby_server.Gameplay.{Gameplay, dispatch_messages, new_gameplay}

-- The hub is one object: both hold the same.
pub record World (Text : Type 0) : Type 0 where
  pub server : Server Text
  pub gameplay : Gameplay

module _ {Text : Type 0} where
  abbrev pub hub_of : Server Text → MessageHub
  hub_of s = s.message_broker.message_hub

  abbrev pub server_with : MessageHub → Server Text → Server Text
  server_with hub s = record s { message_broker = record s.message_broker { message_hub = hub } }

abbrev pub gameplay_with : MessageHub → Gameplay → Gameplay
gameplay_with hub g = record g { env = record g.env { hub = hub } }

-- What a thread does in one go: a connection is accepted, a client is read and sent to, the hub is
-- dispatched to the rooms, or the rooms are ticked.
pub data Turn : Type 0 where
  accepts : Turn
  serves : ConnectedClient → Turn
  dispatches : Turn
  ticks : Turn

module _ (S : Serializer) where
  -- The network's loop catches what a step throws, and goes on.
  abbrev pub on_network :
      Exec (Server S.Text) (Unit {0}) → World S.Text → Result (Unit {0}) × World S.Text
  on_network m w =
      let o = m w.server in
      (caught S o.0, record { server = o.1; gameplay = gameplay_with (hub_of o.1) w.gameplay })

  abbrev pub on_gameplay :
      Exec Gameplay (Unit {0}) → World S.Text → Result (Unit {0}) × World S.Text
  on_gameplay m w =
      let o = m w.gameplay in
      (o.0, record { server = server_with o.1.env.hub w.server; gameplay = o.1 })

  abbrev pub run : Turn → World S.Text → Result (Unit {0}) × World S.Text
  run accepts = on_network (handle_new_client_connection S)
  run (serves client) = on_network (communicate S (client ∷ []))
  run dispatches = on_gameplay dispatch_messages
  run ticks = on_gameplay tick_all_rooms

  -- The constructor of Server: the network, and then the gameplay over the hub.
  abbrev pub made : Server S.Text → Environment → World S.Text
  made s e = record { server = s; gameplay = gameplay_with (hub_of s) (new_gameplay e) }

  unfoldable pub new_program : System S.Text → Environment → Result (Unit {0}) × World S.Text
  unfolding init_network
  new_program system e = let o = init_network S (new_server S system) in (o.0, made o.1 e)

  -- Server::start up to its loop. The thread of the gameplay is spawned at its end: from there on, the
  -- turns of both threads are taken.
  unfoldable pub start : ℕ → World S.Text → Result (Unit {0}) × World S.Text
  unfolding start_listening
  start port w =
      let o = start_listening S port w.server in
      (o.0, record { server = o.1; gameplay = gameplay_with (hub_of o.1) w.gameplay })

  -- main, up to the loop of Server::start.
  unfoldable pub main : System S.Text → Environment → Result (Unit {0}) × World S.Text
  unfolding new_program start
  main system e = let o = new_program system e in continue o.0 o.1 (λ _. start listening_port)

  -- The server when its socket has been asked for, where WSAStartup is not called.
  abbrev pub listening : System S.Text → Result (Unit {0}) × Server S.Text
  listening system = start_listening S listening_port (new_server S system)

  pub main-made :
      (system : System S.Text) (e : Environment)
      → system.api.platform ≡ unix
      → main system e ≡ ((listening system).0, made (listening system).1 e)
  unfolding main new_program start
  main-made system e platform = rw (init_network-unix S (new_server S system) platform) refl

  -- The program when both loops begin.
  abbrev pub begin : System S.Text → Environment → World S.Text
  begin system e = (main system e).1

-- The worlds that turns lead to, of those that `May` lets be taken.
module _ (S : Serializer) (May : Turn → World S.Text → Type 0) where
  pub data Step : World S.Text → World S.Text → Type 0 where
    takes : (t : Turn) (w : World S.Text) → May t w → (run S t w).0 ≡ ok tt → Step w (run S t w).1

  pub data Reach (start : World S.Text) : World S.Text → Type 0 where
    here : Reach start start
    next : {v w : World S.Text} → Reach start v → Step v w → Reach start w
