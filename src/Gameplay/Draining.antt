-- ===== src/Gameplay/Draining.antt =====
-- What a dispatch of the gameplay's broker leaves in the hub.
use samurai_kirby_server.Prelude.{
  ℕ, ◌≡◌, refl, ap, ◌∙◌, true, false, List, [], ◌∷◌, All, All-map, ◌==◌, if◌then◌else◌, arith,
  Bool-cases, inl, inr,
}
use samurai_kirby_server.Prelude.UnorderedMap.{among, keys, has_key, at, at-update}
use samurai_kirby_server.Exec.{
  Exec, Result, ok, err, continue, undefined_behaviour, runtime_error, bad_optional_access,
  bad_function_call, serialize_exception,
}
use samurai_kirby_server.Messages.{PlayerActionMessage}
use samurai_kirby_server.Environment.{Environment, Subscription}
use samurai_kirby_server.Room.Input.{Input, input_of}
use samurai_kirby_server.RoomManager.{Lobby}
use samurai_kirby_server.Gameplay.{actions_of, set_actions, call_all, deliver, dispatch_actions}
use samurai_kirby_server.RoomManager.Validity.{AreValid}
use samurai_kirby_server.Gameplay.Calls.{Keeps, call_all-Keeps}

pub actions_of-set_actions :
    (id j : ℕ) (queue : List PlayerActionMessage) (e : Environment)
    → actions_of j (set_actions id queue e) ≡ (if id == j then queue else actions_of j e)
actions_of-set_actions id j queue e =
    at-update [] id j (λ _. queue) e.hub.player_action_messages_by_player_id

-- The lobby `t` after the queues of the players `ks` have been dispatched in `l`.
pub record IsDrained (ks : List ℕ) (l t : Lobby) : Type 0 where
  pub valid : AreValid t.rooms
  pub queues : (j : ℕ) → actions_of j t.env ≡ (if among j ks then [] else actions_of j l.env)
  pub connectivity : t.env.hub.player_connectivity_messages ≡ l.env.hub.player_connectivity_messages
  pub callback : t.env.connectivity_callback ≡ l.env.connectivity_callback
  pub random : t.env.random ≡ l.env.random
  pub same_keys : keys t.env.subscriptions ≡ keys l.env.subscriptions

-- A dispatch either drains the queues, or calls the callback of a room that was destroyed.
abbrev pub Drains : List ℕ → Lobby → Result (Unit {0}) × Lobby → Type 0
Drains ks l (ok a, t) = IsDrained ks l t
Drains ks l (err undefined_behaviour, t) = Unit {0}
Drains ks l (err bad_optional_access, t) = ⊥
Drains ks l (err bad_function_call, t) = ⊥
Drains ks l (err runtime_error, t) = ⊥
Drains ks l (err serialize_exception, t) = ⊥

-- Where a dispatch has returned.
pub Drains-returned :
    (ks : List ℕ) (l : Lobby) (o : Result (Unit {0}) × Lobby)
    → o.0 ≡ ok tt
    → Drains ks l o
    → IsDrained ks l o.1
Drains-returned ks l (ok a, t) e d = d
Drains-returned ks l (err x, t) e d = absurd (ground (arith, e))

-- The lobbies `l` and `k` differ, of what a dispatch of the queues `ks` leaves, in these at most.
record Agrees (ks : List ℕ) (l k : Lobby) : Type 0 where
  pub queues : (j : ℕ) → among j ks ≡ false → actions_of j k.env ≡ actions_of j l.env
  pub connectivity : k.env.hub.player_connectivity_messages ≡ l.env.hub.player_connectivity_messages
  pub callback : k.env.connectivity_callback ≡ l.env.connectivity_callback
  pub random : k.env.random ≡ l.env.random
  pub same_keys : keys k.env.subscriptions ≡ keys l.env.subscriptions

Agrees-Drains :
    (ks : List ℕ) (l k : Lobby) (o : Result (Unit {0}) × Lobby)
    → Agrees ks l k
    → Drains ks k o
    → Drains ks l o
Agrees-Drains ks l k (ok a, t) g d = record {
  valid = d.valid;
  queues = λ j. elim (Bool-cases (among j ks)) [
    | inl e ↦ d.queues j ∙ rw e refl
    | inr e ↦ d.queues j ∙ rw e (g.queues j e)
  ];
  connectivity = d.connectivity ∙ g.connectivity;
  callback = d.callback ∙ g.callback;
  random = d.random ∙ g.random;
  same_keys = d.same_keys ∙ g.same_keys;
}
Agrees-Drains ks l k (err undefined_behaviour, t) g d = tt
Agrees-Drains ks l k (err bad_optional_access, t) g d = absurd d
Agrees-Drains ks l k (err bad_function_call, t) g d = absurd d
Agrees-Drains ks l k (err runtime_error, t) g d = absurd d
Agrees-Drains ks l k (err serialize_exception, t) g d = absurd d

abbrev popped : ℕ → List PlayerActionMessage → Lobby → Lobby
popped id rest l = record l { env = set_actions id rest l.env }

popped-Agrees :
    (id : ℕ) (rest : List PlayerActionMessage) (l t : Lobby)
    → input_of t.env ≡ input_of l.env
    → keys t.env.subscriptions ≡ keys l.env.subscriptions
    → Agrees (id ∷ []) l (popped id rest t)
unfolding among
popped-Agrees id rest l t same known = record {
  queues = λ j h.
      actions_of-set_actions id j rest t.env
      ∙ ground (arith, ap (λ (i : Input). at [] j i.actions) same);
  connectivity = ap (λ (i : Input). i.connectivity) same;
  callback = ap (λ (i : Input). i.callback) same;
  random = ap (λ (i : Input). i.random) same;
  same_keys = known;
}

-- One message: the callbacks, `pop`, and what is left of the queue.
after-call :
    (id : ℕ) (rest : List PlayerActionMessage) (l : Lobby) (o : Result (Unit {0}) × Lobby)
    (k : Exec Lobby (Unit {0}))
    → has_key id l.env.subscriptions ≡ true
    → Keeps id l o
    → ((t : Lobby)
        → AreValid t.rooms
        → has_key id t.env.subscriptions ≡ true
        → Drains (id ∷ []) (popped id rest t) (k t))
    → Drains (id ∷ []) l (continue o.0 o.1 (λ _. k))
after-call id rest l (ok a, t) k known h later =
    let same = h.same_keys known in
    Agrees-Drains (id ∷ []) l (popped id rest t) (k t) (popped-Agrees id rest l t h.input same)
      (later t h.valid (ap (among id) same ∙ known))
after-call id rest l (err undefined_behaviour, t) k known h later = tt
after-call id rest l (err bad_optional_access, t) k known h later = absurd (ground (arith, h.sound))
after-call id rest l (err bad_function_call, t) k known h later = absurd (ground (arith, h.sound))
after-call id rest l (err runtime_error, t) k known h later = absurd (ground (arith, h.sound))
after-call id rest l (err serialize_exception, t) k known h later = absurd (ground (arith, h.sound))

same_queue : (id j : ℕ) (e : Environment) → (id == j) ≡ true → actions_of id e ≡ actions_of j e
same_queue id j e h = ground arith

pub deliver-Drains :
    (cs : List Subscription) (id : ℕ) (queue : List PlayerActionMessage) (l : Lobby)
    → AreValid l.rooms
    → has_key id l.env.subscriptions ≡ true
    → actions_of id l.env ≡ queue
    → Drains (id ∷ []) l (deliver cs id queue l)
unfolding deliver among
deliver-Drains cs id [] l a known h = record {
  valid = a;
  queues = λ j. ground (arith, h, same_queue id j l.env);
  connectivity = refl;
  callback = refl;
  random = refl;
  same_keys = refl;
}
deliver-Drains cs id (m ∷ rest) l a known h =
    after-call id rest l (call_all cs id m l) _ known (call_all-Keeps cs id m l a) λ t b known'.
      deliver-Drains cs id rest (popped id rest t) b known'
        (actions_of-set_actions id id rest t.env ∙ ground arith)

chained :
    (id : ℕ) (ks : List ℕ) (l t : Lobby) (o : Result (Unit {0}) × Lobby)
    → IsDrained (id ∷ []) l t
    → Drains ks t o
    → Drains (id ∷ ks) l o
unfolding among
chained id ks l t (ok a, u) d e = record {
  valid = e.valid;
  queues = λ j. e.queues j ∙ ground (arith, d.queues j);
  connectivity = e.connectivity ∙ d.connectivity;
  callback = e.callback ∙ d.callback;
  random = e.random ∙ d.random;
  same_keys = e.same_keys ∙ d.same_keys;
}
chained id ks l t (err undefined_behaviour, u) d e = tt
chained id ks l t (err bad_optional_access, u) d e = absurd e
chained id ks l t (err bad_function_call, u) d e = absurd e
chained id ks l t (err runtime_error, u) d e = absurd e
chained id ks l t (err serialize_exception, u) d e = absurd e

-- One player, and then the others.
then-Drains :
    (id : ℕ) (ks : List ℕ) (l : Lobby) (o : Result (Unit {0}) × Lobby) (k : Exec Lobby (Unit {0}))
    → Drains (id ∷ []) l o
    → ((t : Lobby)
        → AreValid t.rooms
        → keys t.env.subscriptions ≡ keys l.env.subscriptions
        → Drains ks t (k t))
    → Drains (id ∷ ks) l (continue o.0 o.1 (λ _. k))
then-Drains id ks l (ok a, t) k d later = chained id ks l t (k t) d (later t d.valid d.same_keys)
then-Drains id ks l (err undefined_behaviour, t) k d later = tt
then-Drains id ks l (err bad_optional_access, t) k d later = absurd d
then-Drains id ks l (err bad_function_call, t) k d later = absurd d
then-Drains id ks l (err runtime_error, t) k d later = absurd d
then-Drains id ks l (err serialize_exception, t) k d later = absurd d

pub dispatch_actions-Drains :
    (ks : List ℕ) (l : Lobby)
    → AreValid l.rooms
    → All (λ j. has_key j l.env.subscriptions ≡ true) ks
    → Drains ks l (dispatch_actions ks l)
unfolding dispatch_actions among
dispatch_actions-Drains [] l a known = record {
  valid = a;
  queues = λ _. refl;
  connectivity = refl;
  callback = refl;
  random = refl;
  same_keys = refl;
}
dispatch_actions-Drains (id ∷ rest) l a (here, known) =
    let queue = actions_of id l.env in
    let cs = at [] id l.env.subscriptions in
    let first = popped id queue l in
    then-Drains id rest l (deliver cs id queue first) _
      (Agrees-Drains (id ∷ []) l first (deliver cs id queue first)
        (popped-Agrees id queue l l refl refl)
        (deliver-Drains cs id queue first a here
          (actions_of-set_actions id id queue l.env ∙ ground arith)))
      λ t b same.
        dispatch_actions-Drains rest t b (All-map _ _ rest (λ j h. ap (among j) same ∙ h) known)
