-- ===== src/Gameplay/Stale.antt =====
-- Where a dispatch of the gameplay's broker ends in undefined behaviour.
use samurai_kirby_server.Prelude.{
  ℕ, ◌≡◌, refl, none, true, inl, inr, List, [], ◌∷◌, ◌==◌, Option-cases, arith,
}
use samurai_kirby_server.Prelude.UnorderedMap.{at}
use samurai_kirby_server.Exec.{Exec, Result, ok, err, continue, undefined_behaviour}
use samurai_kirby_server.Messages.{PlayerActionMessage, join_game, leave_game}
use samurai_kirby_server.Environment.{
  Subscription, PlayerActionCallback, manager_callback, room_callback,
}
use samurai_kirby_server.Room.Callbacks.{has_callback, IsStill}
use samurai_kirby_server.RoomManager
use samurai_kirby_server.RoomManager.{Lobby, find_if, add_player_to_room, is_open_for}
use samurai_kirby_server.RoomManager.Places.{find_if-IsFirst}
use samurai_kirby_server.RoomManager.Validity.{AreValid, found-IsValid}
use samurai_kirby_server.RoomManager.Outcomes.{add_player_to_room-none, add_player_to_room-some}
use samurai_kirby_server.Gameplay.{
  call, call_all, try, set_actions, actions_of, deliver, dispatch_actions,
}
use samurai_kirby_server.Gameplay.Calls.{
  call-Keeps, call_room-none, call_room-some, remove_player_from_room_returns,
}

-- Among the callbacks `cs` is that of a room that is not there.
abbrev pub HasStale : List Subscription → Lobby → Type 0
HasStale cs t =
    (a : ℕ) × (has_callback a cs ≡ true) × (find_if (λ r. r.address == a) t.rooms ≡ none)

-- A callback is subscribed for some player that is the one of a room that is not there.
abbrev pub IsStale : Lobby → Type 0
IsStale t = (j : ℕ) × HasStale (at [] j t.env.subscriptions) t

-- A call in `l` that loses no callback, and whose behaviour is undefined only where `Why` holds.
pub record Courses (Why : Lobby → Type 0) (l : Lobby) (o : Result (Unit {0}) × Lobby) : Type 0 where
  pub valid : AreValid o.1.rooms
  pub still : IsStill l.env o.1.env
  pub why : o.0 ≡ err undefined_behaviour → Why o.1

continue-Courses :
    (Why : Lobby → Type 0) (l : Lobby) (o : Result (Unit {0}) × Lobby) (k : Exec Lobby (Unit {0}))
    → Courses Why l o
    → ((t : Lobby) → AreValid t.rooms → IsStill l.env t.env → Courses Why t (k t))
    → Courses Why l (continue o.0 o.1 (λ _. k))
continue-Courses Why l (ok a, t) k h later =
    let next = later t h.valid h.still in
    record { valid = next.valid; still = λ j a q. next.still j a (h.still j a q); why = next.why }
continue-Courses Why l (err x, t) k h later = h

manager_returns :
    (id : ℕ) (m : PlayerActionMessage) (l : Lobby)
    → AreValid l.rooms
    → (RoomManager.handle_player_message id m l).0 ≡ ok tt
unfolding RoomManager.handle_player_message
manager_returns id (join_game nickname d) l a =
    elim (Option-cases (find_if (is_open_for d) l.rooms)) [
      | inl e ↦ rw (add_player_to_room-none id nickname d l e) refl
      | inr (p, e) ↦
          rw
            (add_player_to_room-some id nickname d l p e
              (found-IsValid p l.rooms (find_if-IsFirst _ l.rooms p e).split a))
            refl
    ]
manager_returns id leave_game l a = remove_player_from_room_returns id l a
manager_returns id _ l a = refl

call_why :
    (s : Subscription) (rest : List Subscription) (id : ℕ) (m : PlayerActionMessage) (l : Lobby)
    (c : PlayerActionCallback)
    → s.callback ≡ c
    → AreValid l.rooms
    → (call c id m l).0 ≡ err undefined_behaviour
    → HasStale (s ∷ rest) (call c id m l).1
unfolding call
call_why s rest id m l manager_callback e a u = absurd (ground (arith, manager_returns id m l a, u))
call_why s rest id m l (room_callback address) e a u =
    elim (Option-cases (find_if (λ r. r.address == address) l.rooms)) [
      | inl gone ↦ rw (call_room-none address id m l gone) (address, ground (arith, e), gone)
      | inr (p, found) ↦
          let here = found-IsValid p l.rooms (find_if-IsFirst _ l.rooms p found).split a in
          absurd (ground (arith, call_room-some address id m l p found here, u))
    ]

first-Courses :
    (s : Subscription) (rest : List Subscription) (id : ℕ) (m : PlayerActionMessage) (l : Lobby)
    → AreValid l.rooms
    → Courses (HasStale (s ∷ rest)) l (try (call s.callback id m) l)
first-Courses s rest id m l a =
    let k = call-Keeps s.callback id m l a in
    record {
      valid = k.valid;
      still = k.still;
      why = λ u. call_why s rest id m l s.callback refl a (ground (arith, u));
    }

pub call_all-Courses :
    (cs : List Subscription) (id : ℕ) (m : PlayerActionMessage) (l : Lobby)
    → AreValid l.rooms
    → Courses (HasStale cs) l (call_all cs id m l)
unfolding call_all
call_all-Courses [] id m l a = record {
  valid = a;
  still = λ _ _ k. k;
  why = λ u. absurd (ground (arith, u));
}
call_all-Courses (s ∷ rest) id m l a =
    continue-Courses (HasStale (s ∷ rest)) l (try (call s.callback id m) l) _
      (first-Courses s rest id m l a)
      λ t b _.
        let later = call_all-Courses rest id m t b in
        record {
          valid = later.valid;
          still = later.still;
          why = λ u. let (x, here, gone) = later.why u in (x, ground (arith, here), gone);
        }

deliver-Courses :
    (cs : List Subscription) (id : ℕ) (queue : List PlayerActionMessage) (l : Lobby)
    → AreValid l.rooms
    → Courses (HasStale cs) l (deliver cs id queue l)
unfolding deliver
deliver-Courses cs id [] l a = record {
  valid = a;
  still = λ _ _ k. k;
  why = λ u. absurd (ground (arith, u));
}
deliver-Courses cs id (m ∷ rest) l a =
    continue-Courses (HasStale cs) l (call_all cs id m l) _ (call_all-Courses cs id m l a) λ t b _.
      let later = deliver-Courses cs id rest (record t { env = set_actions id rest t.env }) b in
      record { valid = later.valid; still = later.still; why = later.why }

-- A dispatch of actions loses no callback, and its behaviour is undefined only where a callback of a
-- room that is not there is subscribed.
pub dispatch_actions-Courses :
    (ks : List ℕ) (l : Lobby) → AreValid l.rooms → Courses IsStale l (dispatch_actions ks l)
unfolding dispatch_actions
dispatch_actions-Courses [] l a = record {
  valid = a;
  still = λ _ _ k. k;
  why = λ u. absurd (ground (arith, u));
}
dispatch_actions-Courses (id ∷ rest) l a =
    let queue = actions_of id l.env in
    let cs = at [] id l.env.subscriptions in
    let first = record l { env = set_actions id queue l.env } in
    let one = deliver-Courses cs id queue first a in
    continue-Courses IsStale l (deliver cs id queue first) _
      (record {
        valid = one.valid;
        still = one.still;
        why = λ u. let (x, here, gone) = one.why u in (id, (x, one.still id x here, gone));
      })
      λ t b _. dispatch_actions-Courses rest t b
