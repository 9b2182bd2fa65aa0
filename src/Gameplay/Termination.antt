-- ===== src/Gameplay/Termination.antt =====
-- The loops of dispatchMessages come to an end, and do what a pass over the queues does.
use samurai_kirby_server.Prelude.{
  ℕ, zero, suc, ◌<◌, ◌≡◌, refl, ap, sym, ◌∙◌, some, Bool, true, List, [], ◌∷◌, arith, length, ◌&&◌,
  All, All-map, pop,
}
use samurai_kirby_server.Prelude.UnorderedMap.{among, keys, has_key, at, update-agree}
use samurai_kirby_server.Exec.{
  Exec, Result, ok, err, continue, pure, ◌>>=◌, ended, ended-and, then-ended,
}
use samurai_kirby_server.Messages.{PlayerActionMessage, PlayerConnectivityMessage}
use samurai_kirby_server.Environment.{Environment, Subscription, gameplay_callback}
use samurai_kirby_server.Room.Input.{Input}
use samurai_kirby_server.RoomManager.{Lobby}
use samurai_kirby_server.Gameplay.{
  actions_of, set_actions, call_all, deliver, dispatch_actions, set_connectivity,
  dispatch_connectivity, dispatch_messages, handle_player_connectivity_message,
}
use samurai_kirby_server.Gameplay.Loops.{
  pop_connectivity, connectivity_body, connectivity_loop, dispatch_loops, pop_actions, actions_body,
  actions_loop, players_loop,
}
use samurai_kirby_server.Gameplay.Draining.{
  Drains, actions_of-set_actions, IsDrained, deliver-Drains,
}
use samurai_kirby_server.Gameplay.Dispatch.{
  after_connection, after_connections, handle-Handled, told_first, dispatch_connectivity-Told,
  All-among,
}
use samurai_kirby_server.RoomManager.Validity.{AreValid}
use samurai_kirby_server.Gameplay.Calls.{Keeps, call_all-Keeps}

pop_actions-eq :
    (id : ℕ) (m : PlayerActionMessage) (rest : List PlayerActionMessage) (e : Environment)
    → actions_of id e ≡ m ∷ rest
    → pop_actions id e ≡ set_actions id rest e
pop_actions-eq id m rest e h =
    ap (λ q. record e { hub = record e.hub { player_action_messages_by_player_id = q } })
      (update-agree [] id pop (λ _. rest) e.hub.player_action_messages_by_player_id (ap pop h))

-- After the callbacks, the loop and the pass go on alike.
alike :
    (id : ℕ) (m : PlayerActionMessage) (rest : List PlayerActionMessage) (l : Lobby)
    (o : Result (Unit {0}) × Lobby) (loop : Exec Lobby Bool) (pass : Exec Lobby (Unit {0}))
    → Keeps id l o
    → actions_of id l.env ≡ m ∷ rest
    → ((t : Lobby)
        → AreValid t.rooms
        → loop (record t { env = set_actions id rest t.env })
          ≡ ended (pass (record t { env = set_actions id rest t.env })))
    → continue o.0 o.1 (λ _ t. loop (record t { env = pop_actions id t.env }))
      ≡ ended (continue o.0 o.1 (λ _ t. pass (record t { env = set_actions id rest t.env })))
alike id m rest l (ok a, t) loop pass h waiting same =
    ap (λ e. loop (record t { env = e }))
      (pop_actions-eq id m rest t.env (ap (λ (i : Input). at [] id i.actions) h.input ∙ waiting))
    ∙ same t h.valid
alike id m rest l (err x, t) loop pass h waiting same = refl

actions_loop-ended :
    (n : ℕ) (cs : List Subscription) (id : ℕ) (queue : List PlayerActionMessage) (l : Lobby)
    → AreValid l.rooms
    → actions_of id l.env ≡ queue
    → length queue < n
    → actions_loop n cs id l ≡ ended (deliver cs id queue l)
unfolding actions_loop deliver
actions_loop-ended zero cs id queue l a waiting enough = absurd (omega arith)
actions_loop-ended (suc n) cs id [] l a waiting enough =
    ap (λ q. actions_body (actions_loop n cs id) cs id q l) waiting
actions_loop-ended (suc n) cs id (m ∷ rest) l a waiting enough =
    ap (λ q. actions_body (actions_loop n cs id) cs id q l) waiting
    ∙ alike id m rest l (call_all cs id m l) (actions_loop n cs id) (deliver cs id rest)
        (call_all-Keeps cs id m l a) waiting
        λ t b.
          actions_loop-ended n cs id rest (record t { env = set_actions id rest t.env }) b
            (actions_of-set_actions id id rest t.env ∙ ground arith) (omega (arith, enough))

then-drained :
    (id : ℕ) (l : Lobby) (o : Result (Unit {0}) × Lobby) (loop : Exec Lobby Bool)
    (pass : Exec Lobby (Unit {0}))
    → Drains (id ∷ []) l o
    → ((t : Lobby) → IsDrained (id ∷ []) l t → loop t ≡ ended (pass t))
    → continue (ended o).0 (ended o).1 (λ b. loop >>= λ later. pure (b && later))
      ≡ ended (continue o.0 o.1 (λ _. pass))
then-drained id l (ok a, t) loop pass d same = then-ended (ok a, t) loop pass λ _. same t d
then-drained id l (err x, t) loop pass d same = refl

-- Each queue is shorter than `n`.
abbrev pub AreShort : ℕ → Lobby → Type 0
AreShort n l = (j : ℕ) → length (actions_of j l.env) < n

players_loop-ended :
    (n : ℕ) (ks : List ℕ) (l : Lobby)
    → AreValid l.rooms
    → All (λ j. has_key j l.env.subscriptions ≡ true) ks
    → AreShort n l
    → players_loop n ks l ≡ ended (dispatch_actions ks l)
unfolding players_loop dispatch_actions
players_loop-ended n [] l a known short = refl
players_loop-ended n (id ∷ rest) l a (here, known) short =
    let queue = actions_of id l.env in
    let cs = at [] id l.env.subscriptions in
    let first = record l { env = set_actions id queue l.env } in
    let waiting : actions_of id first.env ≡ queue =
      actions_of-set_actions id id queue l.env ∙ ground arith in
    ap
      (λ (o : Result Bool × Lobby).
        continue o.0 o.1 (λ b. players_loop n rest >>= λ later. pure (b && later)))
      (actions_loop-ended n cs id queue first a waiting (short id))
    ∙ then-drained id first (deliver cs id queue first) (players_loop n rest)
        (dispatch_actions rest) (deliver-Drains cs id queue first a here waiting)
        λ t d.
          players_loop-ended n rest t d.valid
            (All-map _ _ rest (λ j h. ap (among j) d.same_keys ∙ h) known)
            λ j.
              rw (d.queues j, actions_of-set_actions id j queue l.env)
                (ground (arith, short j, short id))

connectivity_first :
    (n : ℕ) (m : PlayerConnectivityMessage) (rest : List PlayerConnectivityMessage) (l t : Lobby)
    → l.env.connectivity_callback ≡ some gameplay_callback
    → handle_player_connectivity_message m.message_type m.player_id l ≡ (ok tt, t)
    → connectivity_body (connectivity_loop n) (m ∷ rest) l
      ≡ connectivity_loop n (record t { env = pop_connectivity t.env })
connectivity_first n m rest l t callback handled = simp (callback, handled)

connectivity_loop-ended :
    (n : ℕ) (queue : List PlayerConnectivityMessage) (l : Lobby)
    → AreValid l.rooms
    → l.env.connectivity_callback ≡ some gameplay_callback
    → l.env.hub.player_connectivity_messages ≡ queue
    → length queue < n
    → connectivity_loop n l ≡ ended (dispatch_connectivity queue l)
unfolding connectivity_loop dispatch_connectivity
connectivity_loop-ended zero queue l a callback waiting enough = absurd (omega arith)
connectivity_loop-ended (suc n) [] l a callback waiting enough =
    ap (λ q. connectivity_body (connectivity_loop n) q l) waiting
connectivity_loop-ended (suc n) (m ∷ rest) l a callback waiting enough =
    let h = handle-Handled m.message_type m.player_id l a in
    let next = record (after_connection m.message_type m.player_id l) {
      env = set_connectivity rest (after_connection m.message_type m.player_id l).env;
    } in
    let left = ap (λ (i : Input). pop i.connectivity) h.input ∙ ap pop waiting in
    ap (λ q. connectivity_body (connectivity_loop n) q l) waiting
    ∙ connectivity_first n m rest l (after_connection m.message_type m.player_id l) callback
        h.returned
    ∙ ap
        (λ q. connectivity_loop n (record (after_connection m.message_type m.player_id l) {
          env = set_connectivity q (after_connection m.message_type m.player_id l).env;
        }))
        left
    ∙ connectivity_loop-ended n rest next h.valid
        (ap (λ (i : Input). i.callback) h.input ∙ callback) refl (omega (arith, enough))
    ∙ ap ended (
        sym
          (told_first m rest l (after_connection m.message_type m.player_id l) callback h.returned))

-- Let every room be valid and the gameplay's callback be subscribed, and let `n` be more than the
-- number of connections that wait, and than that of actions that wait for any player. Then
-- the loops of dispatchMessages, each with `n` rounds at its disposal, come to an end by
-- their tests, though each test looks into the hub after the callbacks; and they do what one pass
-- over the queues does, its undefined behaviour included.
pub dispatch_loops-ended :
    (n : ℕ) (l : Lobby)
    → AreValid l.rooms
    → l.env.connectivity_callback ≡ some gameplay_callback
    → length l.env.hub.player_connectivity_messages < n
    → AreShort n l
    → dispatch_loops n l ≡ ended (dispatch_messages l)
unfolding dispatch_loops dispatch_messages
dispatch_loops-ended n l a callback connections short =
    let queue = l.env.hub.player_connectivity_messages in
    let told = dispatch_connectivity-Told queue l a callback refl in
    let ks = keys (after_connections queue l).env.subscriptions in
    let loop =
      connectivity_loop-ended n queue l a callback refl connections ∙ ap ended told.returned in
    rw (loop, told.returned)
      (ap (λ (o : Result Bool × Lobby). continue o.0 o.1 (λ b. pure (true && b)))
          (players_loop-ended n ks (after_connections queue l) told.valid (All-among ks)
            (λ j. rw told.actions (short j)))
        ∙ ended-and (dispatch_actions ks (after_connections queue l)))
