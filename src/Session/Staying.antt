-- ===== src/Session/Staying.antt =====
-- What holds however the two threads take turns, as long as nobody leaves.
mod Examples
use samurai_kirby_server.Prelude.{false, refl, Bool, true, ◌≡◌, sym, ap, subst, []}
use samurai_kirby_server.Exec.{
  Result, ok, err, is_ok, undefined_behaviour, runtime_error, bad_optional_access,
  bad_function_call, serialize_exception,
}
use samurai_kirby_server.Network.{ConnectedClient}
use samurai_kirby_server.Environment.{Environment, subscribe_to_player_connectivity_messages}
use samurai_kirby_server.Serializer.Interface.{Serializer}
use samurai_kirby_server.Sockets.{System, unix}
use samurai_kirby_server.Room.Validity.{DrawsInRange}
use samurai_kirby_server.Gameplay.{new_gameplay, new_room_manager}
use samurai_kirby_server.Gameplay.Links.{Grows, IsLinked}
use samurai_kirby_server.Gameplay.Staying.{Linked}
use samurai_kirby_server.Gameplay.Ticking.{tick_all_rooms-Stays}
use samurai_kirby_server.Gameplay.Rounds.{AllConnect, NobodyLeaves, dispatch_messages-Stays}
use samurai_kirby_server.Session.Turns.{
  main, main-made, World, Turn, accepts, serves, dispatches, ticks, run, begin, Reach, here, next,
  takes,
}
use samurai_kirby_server.Session.Interleaving.{IsSound, IsExpected, reachable-Ends}

-- What a turn must find: a dispatch, only connections of new players, and no message that a player
-- leaves.
abbrev pub NobodyLeavesFor : {Text : Type 0} → Turn → World Text → Type 0
NobodyLeavesFor dispatches w =
    AllConnect w.gameplay.env.hub.player_connectivity_messages × NobodyLeaves w.gameplay
NobodyLeavesFor accepts w = Unit {0}
NobodyLeavesFor (serves client) w = Unit {0}
NobodyLeavesFor ticks w = Unit {0}

-- The gameplay's turns end well, and those of the network also by the SerializeException, which
-- nothing catches.
abbrev pub is_served : Result (Unit {0}) → Bool
is_served (ok a) = true
is_served (err serialize_exception) = true
is_served (err runtime_error) = false
is_served (err undefined_behaviour) = false
is_served (err bad_optional_access) = false
is_served (err bad_function_call) = false

abbrev pub goes_on : Turn → Result (Unit {0}) → Bool
goes_on accepts r = is_served r
goes_on (serves client) r = is_served r
goes_on dispatches r = is_ok r
goes_on ticks r = is_ok r

accepts-is_served :
    {Text : Type 0} (r : Result (Unit {0})) (w : World Text)
    → IsExpected accepts (r, w)
    → is_served r ≡ true
accepts-is_served (ok a) w h = refl
accepts-is_served (err serialize_exception) w h = refl
accepts-is_served (err runtime_error) w h = absurd h
accepts-is_served (err undefined_behaviour) w h = absurd h
accepts-is_served (err bad_optional_access) w h = absurd h
accepts-is_served (err bad_function_call) w h = absurd h

serves-is_served :
    {Text : Type 0} (client : ConnectedClient) (r : Result (Unit {0})) (w : World Text)
    → IsExpected (serves client) (r, w)
    → is_served r ≡ true
serves-is_served client (ok a) w h = refl
serves-is_served client (err serialize_exception) w h = refl
serves-is_served client (err runtime_error) w h = absurd h
serves-is_served client (err undefined_behaviour) w h = absurd h
serves-is_served client (err bad_optional_access) w h = absurd h
serves-is_served client (err bad_function_call) w h = absurd h

module _ (S : Serializer) where
  pub record GoesOn (t : Turn) (w : World S.Text) (o : Result (Unit {0}) × World S.Text)
      : Type 0 where
    pub returned : goes_on t o.0 ≡ true
    pub linked : Linked o.1.gameplay
    pub grows : Grows w.gameplay.rooms o.1.gameplay.rooms

  run-GoesOn :
      (t : Turn) (w : World S.Text)
      → IsSound w
      → IsExpected t (run S t w)
      → Linked w.gameplay
      → NobodyLeavesFor t w
      → GoesOn t w (run S t w)
  run-GoesOn accepts w h expected linked stays = record {
    returned = accepts-is_served (run S accepts w).0 (run S accepts w).1 expected;
    linked = linked;
    grows = λ _ k. k;
  }
  run-GoesOn (serves client) w h expected linked stays = record {
    returned =
        serves-is_served client (run S (serves client) w).0 (run S (serves client) w).1 expected;
    linked = linked;
    grows = λ _ k. k;
  }
  run-GoesOn dispatches w h expected linked (connects, stays) =
      let s = (dispatch_messages-Stays w.gameplay h.valid h.callback linked connects stays).0 in
      record { returned = ap is_ok s.returned; linked = s.linked; grows = s.grows }
  run-GoesOn ticks w h expected linked stays =
      let s = tick_all_rooms-Stays w.gameplay h.draws h.valid linked in
      record { returned = ap is_ok s.returned; linked = s.linked; grows = s.grows }

  new_gameplay-Linked : (e : Environment) → e.subscriptions ≡ [] → Linked (new_gameplay e)
  unfolding new_gameplay new_room_manager subscribe_to_player_connectivity_messages
  new_gameplay-Linked e none_yet = subst (IsLinked []) (sym none_yet) tt

  StayingReach-Linked :
      (system : System S.Text) (e : Environment) {w : World S.Text}
      → system.api.platform ≡ unix
      → (main S system e).0 ≡ ok tt
      → DrawsInRange e
      → e.subscriptions ≡ []
      → Reach S NobodyLeavesFor (begin S system e) w
      → Linked w.gameplay
  StayingReach-Linked system e platform begun draws none_yet here =
      subst (λ (r : Result (Unit {0}) × World S.Text). Linked r.1.gameplay)
        (sym (main-made S system e platform)) (new_gameplay-Linked e none_yet)
  StayingReach-Linked system e platform begun draws none_yet (next r (takes t v stays good)) =
      let before = StayingReach-Linked system e platform begun draws none_yet r in
      let (sound, expected) = reachable-Ends S NobodyLeavesFor system e t platform begun draws r in
      (run-GoesOn t v sound expected before stays).linked

  -- Start the program elsewhere than on Windows, with the server's socket opened, draws between
  -- their bounds and no callback subscribed to actions, and let the threads take turns in any order
  -- and whatever the system answers, as long as no turn ends either of them; and let every dispatch
  -- find only connections of new players and no message that a player leaves. Then a next turn, which
  -- finds the same if it is a dispatch, ends well, or, if it is the network's, by the
  -- SerializeException; it destroys no room; and after it every callback leads to a room that is
  -- there.
  pub staying_reachable-GoesOn :
      (system : System S.Text) (e : Environment) {w : World S.Text} (t : Turn)
      → system.api.platform ≡ unix
      → (main S system e).0 ≡ ok tt
      → DrawsInRange e
      → e.subscriptions ≡ []
      → Reach S NobodyLeavesFor (begin S system e) w
      → NobodyLeavesFor t w
      → GoesOn t w (run S t w)
  staying_reachable-GoesOn system e {w} t platform begun draws none_yet r stays =
      let (sound, expected) = reachable-Ends S NobodyLeavesFor system e t platform begun draws r in
      run-GoesOn t w sound expected (StayingReach-Linked system e platform begun draws none_yet r)
        stays
