-- ===== src/Session/Interleaving.antt =====
-- What holds however the two threads take turns.
use samurai_kirby_server.Prelude.{◌≡◌, refl, some, ap, sym, subst, ◌∙◌, [], ◌∷◌}
use samurai_kirby_server.Exec.{
  Result, ok, err, undefined_behaviour, runtime_error, bad_optional_access, bad_function_call,
  serialize_exception,
}
use samurai_kirby_server.Environment.{
  Environment, gameplay_callback, subscribe_to_player_connectivity_messages,
}
use samurai_kirby_server.Serializer.Interface.{Serializer}
use samurai_kirby_server.Sockets.{System, unix}
use samurai_kirby_server.Network.{Server}
use samurai_kirby_server.Network.Serving.{
  communicate, handle_new_client_connection, caught, listening_port,
}
use samurai_kirby_server.Network.Invariant.{IsServing, Serves, hub-IsServing}
use samurai_kirby_server.Network.Safety.{communicate-Serves, handle_new_client_connection-Serves}
use samurai_kirby_server.Network.Program.{Opens, start_listening-Opens}
use samurai_kirby_server.Room.Validity.{DrawsInRange}
use samurai_kirby_server.Room.Safety.{same_random-DrawsInRange}
use samurai_kirby_server.Room.Input.{Input}
use samurai_kirby_server.RoomManager.{tick_all_rooms}
use samurai_kirby_server.Gameplay.{Gameplay, dispatch_messages, new_gameplay, new_room_manager}
use samurai_kirby_server.RoomManager.Validity.{AreValid, tick_all_rooms-TicksAll}
use samurai_kirby_server.Gameplay.Stale.{IsStale}
use samurai_kirby_server.Gameplay.Dispatch.{Dispatches, dispatch_messages-Dispatches}
use samurai_kirby_server.Session.Turns.{
  main, main-made, listening, World, Turn, accepts, serves, dispatches, ticks, run, gameplay_with,
  server_with, hub_of, takes, begin, Reach, here, next,
}

module _ {Text : Type 0} where
  -- The server serves, the rooms are valid, and the gameplay is subscribed.
  pub record IsSound (w : World Text) : Type 0 where
    pub serving : IsServing w.server
    pub valid : AreValid w.gameplay.rooms
    pub callback : w.gameplay.env.connectivity_callback ≡ some gameplay_callback
    pub draws : DrawsInRange w.gameplay.env

-- How a turn may end: the network's, well or by the SerializeException, a dispatch, well or where a
-- callback is subscribed that is the one of a room that is not there, and a round of ticks, well.
abbrev pub IsExpected : {Text : Type 0} → Turn → Result (Unit {0}) × World Text → Type 0
IsExpected _ (ok a, w) = Unit {0}
IsExpected accepts (err serialize_exception, w) = Unit {0}
IsExpected (serves c) (err serialize_exception, w) = Unit {0}
IsExpected dispatches (err undefined_behaviour, w) = IsStale w.gameplay
IsExpected _ (err _, w) = ⊥

module _ (S : Serializer) where
  -- A turn that ends as expected, in a sound world if it ends well.
  abbrev pub Ends : Turn → Result (Unit {0}) × World S.Text → Type 0
  Ends t o = IsExpected t o × (o.0 ≡ ok tt → IsSound o.1)

  network-IsSound :
      (w : World S.Text) (s : Server S.Text)
      → IsSound w
      → IsServing s
      → IsSound (record { server = s; gameplay = gameplay_with (hub_of s) w.gameplay })
  network-IsSound w s h serving = record {
    serving = serving;
    valid = h.valid;
    callback = h.callback;
    draws = h.draws;
  }

  accepts-Ends :
      (w : World S.Text) (o : Result (Unit {0}) × Server S.Text)
      → IsSound w
      → Serves o
      → Ends accepts
          (caught S o.0, record { server = o.1; gameplay = gameplay_with (hub_of o.1) w.gameplay })
  accepts-Ends w (ok a, s) h d = (tt, λ _. network-IsSound w s h d)
  accepts-Ends w (err runtime_error, s) h d = (tt, λ _. network-IsSound w s h d)
  accepts-Ends w (err serialize_exception, s) h d = (tt, λ e. cc)
  accepts-Ends w (err undefined_behaviour, s) h d = absurd d
  accepts-Ends w (err bad_optional_access, s) h d = absurd d
  accepts-Ends w (err bad_function_call, s) h d = absurd d

  gameplay-IsSound :
      (w : World S.Text) (g : Gameplay)
      → IsSound w
      → AreValid g.rooms
      → g.env.connectivity_callback ≡ w.gameplay.env.connectivity_callback
      → g.env.random ≡ w.gameplay.env.random
      → IsSound (record { server = server_with g.env.hub w.server; gameplay = g })
  gameplay-IsSound w g h valid callback random = record {
    serving = hub-IsServing (server_with g.env.hub w.server).message_broker w.server refl h.serving;
    valid = valid;
    callback = callback ∙ h.callback;
    draws = same_random-DrawsInRange w.gameplay.env g.env random h.draws;
  }

  dispatches-Ends :
      (w : World S.Text) (o : Result (Unit {0}) × Gameplay)
      → IsSound w
      → Dispatches w.gameplay o
      → Ends dispatches (o.0, record { server = server_with o.1.env.hub w.server; gameplay = o.1 })
  dispatches-Ends w (ok a, g) h d = (tt, λ _. gameplay-IsSound w g h d.valid d.callback d.random)
  dispatches-Ends w (err undefined_behaviour, g) h d = (d, λ e. cc)
  dispatches-Ends w (err runtime_error, g) h d = absurd d
  dispatches-Ends w (err serialize_exception, g) h d = absurd d
  dispatches-Ends w (err bad_optional_access, g) h d = absurd d
  dispatches-Ends w (err bad_function_call, g) h d = absurd d

  run-Ends : (t : Turn) (w : World S.Text) → IsSound w → Ends t (run S t w)
  run-Ends accepts w h =
      accepts-Ends w (handle_new_client_connection S w.server) h
        (handle_new_client_connection-Serves S w.server h.serving)
  run-Ends (serves client) w h =
      accepts-Ends w (communicate S (client ∷ []) w.server) h
        (communicate-Serves S (client ∷ []) w.server h.serving)
  run-Ends dispatches w h =
      dispatches-Ends w (dispatch_messages w.gameplay) h
        (dispatch_messages-Dispatches w.gameplay h.valid h.callback).1
  run-Ends ticks w h =
      let t = tick_all_rooms-TicksAll w.gameplay h.draws h.valid in
      (
        rw t.returned tt,
        λ _.
            gameplay-IsSound w (tick_all_rooms w.gameplay).1 h t.valid
              (ap (λ (i : Input). i.callback) t.input) (ap (λ (i : Input). i.random) t.input),
      )

  begun-IsSound :
      (o : Result (Unit {0}) × Server S.Text) (e : Environment)
      → o.0 ≡ ok tt
      → Opens o
      → DrawsInRange e
      → IsSound (record { server = o.1; gameplay = gameplay_with (hub_of o.1) (new_gameplay e) })
  unfolding new_gameplay new_room_manager subscribe_to_player_connectivity_messages
  begun-IsSound (ok a, s) e begun h draws = record {
    serving = h;
    valid = tt;
    callback = refl;
    draws = draws;
  }
  begun-IsSound (err x, s) e begun h draws = cc

  begin-IsSound :
      (system : System S.Text) (e : Environment)
      → system.api.platform ≡ unix
      → (main S system e).0 ≡ ok tt
      → DrawsInRange e
      → IsSound (begin S system e)
  begin-IsSound system e platform begun draws =
      let started = main-made S system e platform in
      subst (λ (r : Result (Unit {0}) × World S.Text). IsSound r.1) (sym started)
        (begun-IsSound (listening S system) e (ap (λ r. r.0) (sym started) ∙ begun)
          (start_listening-Opens S listening_port system platform) draws)

  Reach-IsSound :
      (May : Turn → World S.Text → Type 0) (start : World S.Text) {w : World S.Text}
      → IsSound start
      → Reach S May start w
      → IsSound w
  Reach-IsSound May start h here = h
  Reach-IsSound May start h (next r (takes t v may good)) =
      (run-Ends t v (Reach-IsSound May start h r)).1 good

  -- Start the program elsewhere than on Windows, with the server's socket opened and draws between
  -- their bounds, and let the threads take turns in any order and whatever the system answers, as
  -- long as no turn ends either of them and each is one that `May` allows, whatever that is. Then the
  -- server serves as in `rounds-Lasts`, every room is valid, and every next turn ends well, but for
  -- two: a step of the network may end by the SerializeException, and a dispatch in undefined
  -- behaviour, where the callback of a room that is not there is subscribed for some player. What
  -- Room::removePlayer reads of a player, after it has emptied its slot, is taken to be what stood
  -- there.
  pub reachable-Ends :
      (May : Turn → World S.Text → Type 0) (system : System S.Text) (e : Environment)
      {w : World S.Text} (t : Turn)
      → system.api.platform ≡ unix
      → (main S system e).0 ≡ ok tt
      → DrawsInRange e
      → Reach S May (begin S system e) w
      → IsSound w × IsExpected t (run S t w)
  reachable-Ends May system e {w} t platform begun draws r =
      let h =
        Reach-IsSound May (begin S system e) (begin-IsSound system e platform begun draws) r in
      (h, (run-Ends t w h).0)
