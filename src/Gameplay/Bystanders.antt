-- ===== src/Gameplay/Bystanders.antt =====
-- What the callbacks of the gameplay and the dispatch of actions mean for an id that the game does
-- not know.
use samurai_kirby_server.Prelude.{
  ℕ, ◌≡◌, refl, ap, ◌∙◌, false, inl, inr, Option-cases, List, [], ◌∷◌, All, All-map, ◌==◌, arith,
  true,
}
use samurai_kirby_server.Prelude.UnorderedMap.{has_key, at, among}
use samurai_kirby_server.Exec.{Exec, Result, ok, err, continue}
use samurai_kirby_server.Messages.{PlayerActionMessage, join_game, leave_game}
use samurai_kirby_server.Environment.{
  Subscription, PlayerActionCallback, manager_callback, room_callback,
}
use samurai_kirby_server.Room.Outsiders.{IsAbsent}
use samurai_kirby_server.Room.Strangers.{handle_player_message-IsStrangerTo}
use samurai_kirby_server.RoomManager
use samurai_kirby_server.RoomManager.{Lobby, find_if, remove_player_from_room, tick_all_rooms}
use samurai_kirby_server.RoomManager.Places.{find_if-IsFirst, All-replace, All-found}
use samurai_kirby_server.RoomManager.Outcomes.{at_place}
use samurai_kirby_server.RoomManager.Validity.{AreValid, found-IsValid}
use samurai_kirby_server.RoomManager.Strangers.{
  StrangerIn, IsStrangerTo-IsStranger, add_player_to_room-StrangerIn,
  remove_player_from_room-StrangerIn,
}
use samurai_kirby_server.Gameplay.{
  actions_of, call, call_all, try, deliver, set_actions, dispatch_actions,
}
use samurai_kirby_server.Gameplay.Calls.{call_room-none, call_room-some, call-Keeps, call_all-Keeps}
use samurai_kirby_server.Gameplay.Draining.{Drains-returned, deliver-Drains, actions_of-set_actions}

manager-StrangerIn :
    (j id : ℕ) (m : PlayerActionMessage) (l : Lobby)
    → (id == j) ≡ false
    → AreValid l.rooms
    → StrangerIn j l
    → StrangerIn j (RoomManager.handle_player_message id m l).1
unfolding RoomManager.handle_player_message
manager-StrangerIn j id (join_game nickname d) l o a h =
    add_player_to_room-StrangerIn j id nickname d l o a h
manager-StrangerIn j id leave_game l o a h = remove_player_from_room-StrangerIn j id l a h
manager-StrangerIn j id _ l o a h = h

room-StrangerIn :
    (j address id : ℕ) (m : PlayerActionMessage) (l : Lobby)
    → AreValid l.rooms
    → StrangerIn j l
    → StrangerIn j (call (room_callback address) id m l).1
room-StrangerIn j address id m l a h =
    elim (Option-cases (find_if (λ r. r.address == address) l.rooms)) [
      | inl e ↦ rw (call_room-none address id m l e) h
      | inr (p, e) ↦
          let split = (find_if-IsFirst _ l.rooms p e).split in
          let w = at_place p l in
          let k =
            handle_player_message-IsStrangerTo j id m w
              (All-found (IsAbsent j) p l.rooms split h.absent) in
          rw (call_room-some address id m l p e (found-IsValid p l.rooms split a)) (
            IsStrangerTo-IsStranger j l.rooms _ w _ h k
              (All-replace (IsAbsent j) p l.rooms _ split h.absent k.absent))
    ]

call-StrangerIn :
    (j : ℕ) (c : PlayerActionCallback) (id : ℕ) (m : PlayerActionMessage) (l : Lobby)
    → (id == j) ≡ false
    → AreValid l.rooms
    → StrangerIn j l
    → StrangerIn j (call c id m l).1
unfolding call
call-StrangerIn j manager_callback id m l o a h = manager-StrangerIn j id m l o a h
call-StrangerIn j (room_callback address) id m l o a h = room-StrangerIn j address id m l a h

-- What comes after a call is only made where the call has returned.
continue-StrangerIn :
    (j : ℕ) (o : Result (Unit {0}) × Lobby) (k : Exec Lobby (Unit {0}))
    → StrangerIn j o.1
    → (o.0 ≡ ok tt → StrangerIn j (k o.1).1)
    → StrangerIn j (continue o.0 o.1 (λ _. k)).1
continue-StrangerIn j (ok a, t) k h later = later refl
continue-StrangerIn j (err x, t) k h later = h

call_all-StrangerIn :
    (j : ℕ) (cs : List Subscription) (id : ℕ) (m : PlayerActionMessage) (l : Lobby)
    → (id == j) ≡ false
    → AreValid l.rooms
    → StrangerIn j l
    → StrangerIn j (call_all cs id m l).1
unfolding call_all
call_all-StrangerIn j [] id m l o a h = h
call_all-StrangerIn j (s ∷ rest) id m l o a h =
    let now = call-StrangerIn j s.callback id m l o a h in
    continue-StrangerIn j (try (call s.callback id m) l) _ now λ _.
      call_all-StrangerIn j rest id m (call s.callback id m l).1 o
        (call-Keeps s.callback id m l a).valid now

deliver-StrangerIn :
    (j : ℕ) (cs : List Subscription) (id : ℕ) (queue : List PlayerActionMessage) (l : Lobby)
    → (id == j) ≡ false
    → AreValid l.rooms
    → StrangerIn j l
    → StrangerIn j (deliver cs id queue l).1
unfolding deliver
deliver-StrangerIn j cs id [] l o a h = h
deliver-StrangerIn j cs id (m ∷ rest) l o a h =
    let now = call_all-StrangerIn j cs id m l o a h in
    let t = (call_all cs id m l).1 in
    continue-StrangerIn j (call_all cs id m l) _ now λ _.
      deliver-StrangerIn j cs id rest (record t { env = set_actions id rest t.env }) o
        (call_all-Keeps cs id m l a).valid
        (record { absent = now.absent; mail = now.mail; heard = now.heard })

pub dispatch_actions-StrangerIn :
    (j : ℕ) (ks : List ℕ) (l : Lobby)
    → AreValid l.rooms
    → All (λ k. has_key k l.env.subscriptions ≡ true) ks
    → All (λ k. (k == j) ≡ false) ks
    → StrangerIn j l
    → StrangerIn j (dispatch_actions ks l).1
unfolding dispatch_actions
dispatch_actions-StrangerIn j [] l a known others h = h
dispatch_actions-StrangerIn j (id ∷ rest) l a (here, known) (o, others) h =
    let queue = actions_of id l.env in
    let cs = at [] id l.env.subscriptions in
    let first = record l { env = set_actions id queue l.env } in
    let now =
      deliver-StrangerIn j cs id queue first o a
        (record { absent = h.absent; mail = h.mail; heard = h.heard }) in
    continue-StrangerIn j (deliver cs id queue first) _ now λ good.
      let d = Drains-returned (id ∷ []) first (deliver cs id queue first) good (
        deliver-Drains cs id queue first a here
          (actions_of-set_actions id id queue l.env ∙ ground arith)) in
      dispatch_actions-StrangerIn j rest (deliver cs id queue first).1 d.valid
        (All-map _ _ rest (λ k e. ap (among k) d.same_keys ∙ e) known) others now
