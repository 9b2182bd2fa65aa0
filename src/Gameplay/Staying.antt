-- ===== src/Gameplay/Staying.antt =====
-- Where nobody leaves: every callback finds its room.
use samurai_kirby_server.Prelude.{
  ℕ, String, ◌≡◌, ◌≢◌, refl, ap, sym, subst, true, inl, inr, List, [], ◌∷◌, ◌++◌, All, Option-cases,
  arith,
}
use samurai_kirby_server.Exec.{Exec, Result, ok, err, continue}
use samurai_kirby_server.Player.{GameDifficulty}
use samurai_kirby_server.Messages.{PlayerActionMessage, join_game, leave_game}
use samurai_kirby_server.Environment.{
  Subscription, PlayerActionCallback, manager_callback, room_callback,
}
use samurai_kirby_server.Room.State.{new_room}
use samurai_kirby_server.Room.Membership.{add_player}
use samurai_kirby_server.Room.Frame.{handle_player_message-SameSeats}
use samurai_kirby_server.RoomManager
use samurai_kirby_server.RoomManager.{Lobby, find_if, is_open_for, add_player_to_room}
use samurai_kirby_server.RoomManager.Places.{find_if-IsFirst}
use samurai_kirby_server.RoomManager.Outcomes.{
  at_place, opened, add_player_to_room-none, add_player_to_room-some,
}
use samurai_kirby_server.Gameplay.{set_actions, call, call_all, caught, try, deliver}
use samurai_kirby_server.RoomManager.Validity.{AreValid, found-IsValid}
use samurai_kirby_server.Gameplay.Calls.{call-Keeps, call_all-Keeps, call_room-some}
use samurai_kirby_server.Room.Listening.{handle_player_message_subscriptions}
use samurai_kirby_server.Gameplay.Links.{
  has_room, find_if-has_room, Grows, Grows-append, Grows-replace, has_room-last, has_room-middle,
  is_linked, AreLinked, IsLinked, AreLinked-Grows, IsLinked-Grows, add_player_address,
  add_player-IsLinked,
}

abbrev pub Linked : Lobby → Type 0
Linked l = IsLinked l.rooms l.env.subscriptions

-- A call that returns and destroys no room.
pub record Stays (l : Lobby) (o : Result (Unit {0}) × Lobby) : Type 0 where
  pub returned : o.0 ≡ ok tt
  pub linked : Linked o.1
  pub grows : Grows l.rooms o.1.rooms

add_player_to_room-Stays :
    (id : ℕ) (nickname : String) (d : GameDifficulty) (l : Lobby)
    → AreValid l.rooms
    → Linked l
    → Stays l (add_player_to_room id nickname d l)
unfolding new_room
add_player_to_room-Stays id nickname d l a h =
    elim (Option-cases (find_if (is_open_for d) l.rooms)) [
      | inl e ↦
          let w = opened d l in
          let r = (add_player id nickname w).1.room in
          let here =
            subst (λ x. has_room x (l.rooms ++ r ∷ []) ≡ true) (add_player_address id nickname w)
              (has_room-last l.rooms r) in
          let grows = Grows-append l.rooms r in
          rw (add_player_to_room-none id nickname d l e) (record {
            returned = refl;
            linked =
                add_player-IsLinked id nickname w (l.rooms ++ r ∷ []) here
                  (IsLinked-Grows l.rooms (l.rooms ++ r ∷ []) l.env.subscriptions grows h);
            grows = grows;
          })
      | inr (p, e) ↦
          let split = (find_if-IsFirst _ l.rooms p e).split in
          let w = at_place p l in
          let r = (add_player id nickname w).1.room in
          let later = p.before ++ r ∷ p.after in
          let same = add_player_address id nickname w in
          let grows = Grows-replace p l.rooms r split same in
          rw (add_player_to_room-some id nickname d l p e (found-IsValid p l.rooms split a))
            (record {
              returned = refl;
              linked =
                  add_player-IsLinked id nickname w later
                    (subst (λ x. has_room x later ≡ true) same (has_room-middle p.before p.after r))
                    (IsLinked-Grows l.rooms later l.env.subscriptions grows h);
              grows = grows;
            })
    ]

manager-Stays :
    (id : ℕ) (m : PlayerActionMessage) (l : Lobby)
    → m ≢ leave_game
    → AreValid l.rooms
    → Linked l
    → Stays l (RoomManager.handle_player_message id m l)
unfolding RoomManager.handle_player_message
manager-Stays id (join_game nickname d) l stays a h = add_player_to_room-Stays id nickname d l a h
manager-Stays id leave_game l stays a h = absurd (stays refl)
manager-Stays id _ l stays a h = record { returned = refl; linked = h; grows = λ _ k. k }

room-Stays :
    (address id : ℕ) (m : PlayerActionMessage) (l : Lobby)
    → m ≢ leave_game
    → AreValid l.rooms
    → has_room address l.rooms ≡ true
    → Linked l
    → Stays l (call (room_callback address) id m l)
room-Stays address id m l stays a here h =
    let found = find_if-has_room address l.rooms here in
    let p = found.0 in
    let split = (find_if-IsFirst _ l.rooms p found.1).split in
    let w = at_place p l in
    let grows =
      Grows-replace p l.rooms _ split (handle_player_message-SameSeats id m w stays).address in
    rw (call_room-some address id m l p found.1 (found-IsValid p l.rooms split a)) (record {
      returned = refl;
      linked =
          subst (IsLinked _) (sym (handle_player_message_subscriptions id m w stays))
            (IsLinked-Grows l.rooms _ l.env.subscriptions grows h);
      grows = grows;
    })

call-Stays :
    (c : PlayerActionCallback) (id : ℕ) (m : PlayerActionMessage) (l : Lobby)
    → m ≢ leave_game
    → AreValid l.rooms
    → is_linked l.rooms c ≡ true
    → Linked l
    → Stays l (call c id m l)
unfolding call
call-Stays manager_callback id m l stays a here h = manager-Stays id m l stays a h
call-Stays (room_callback address) id m l stays a here h = room-Stays address id m l stays a here h

pub continue-Stays :
    (l : Lobby) (o : Result (Unit {0}) × Lobby) (k : Exec Lobby (Unit {0}))
    → Stays l o
    → (Linked o.1 → Grows l.rooms o.1.rooms → Stays o.1 (k o.1))
    → Stays l (continue o.0 o.1 (λ _. k))
continue-Stays l (ok a, t) k h later =
    let next = later h.linked h.grows in
    record {
      returned = next.returned;
      linked = next.linked;
      grows = λ a k. next.grows a (h.grows a k);
    }
continue-Stays l (err x, t) k h later = absurd (ground (arith, h.returned))

try-Stays : (l : Lobby) (o : Result (Unit {0}) × Lobby) → Stays l o → Stays l (caught o.0, o.1)
try-Stays l o h = record { returned = ap caught h.returned; linked = h.linked; grows = h.grows }

call_all-Stays :
    (cs : List Subscription) (id : ℕ) (m : PlayerActionMessage) (l : Lobby)
    → m ≢ leave_game
    → AreValid l.rooms
    → AreLinked l.rooms cs
    → Linked l
    → Stays l (call_all cs id m l)
unfolding call_all
call_all-Stays [] id m l stays a linked h = record { returned = refl; linked = h; grows = λ _ k. k }
call_all-Stays (s ∷ rest) id m l stays a (here, linked) h =
    let o = try (call s.callback id m) l in
    continue-Stays l o _ (try-Stays l _ (call-Stays s.callback id m l stays a here h)) λ next grows.
      call_all-Stays rest id m o.1 stays (call-Keeps s.callback id m l a).valid
        (AreLinked-Grows l.rooms o.1.rooms rest grows linked) next

pub same_rooms-Stays :
    (l k : Lobby) (o : Result (Unit {0}) × Lobby) → l.rooms ≡ k.rooms → Stays l o → Stays k o
same_rooms-Stays l k o e h = record {
  returned = h.returned;
  linked = h.linked;
  grows = λ a there. h.grows a (rw e there);
}

pub deliver-Stays :
    (cs : List Subscription) (id : ℕ) (queue : List PlayerActionMessage) (l : Lobby)
    → All (λ m. m ≢ leave_game) queue
    → AreValid l.rooms
    → AreLinked l.rooms cs
    → Linked l
    → Stays l (deliver cs id queue l)
unfolding deliver
deliver-Stays cs id [] l stays a linked h = record { returned = refl; linked = h; grows = λ _ k. k }
deliver-Stays cs id (m ∷ rest) l (here, stays) a linked h =
    let o = call_all cs id m l in
    continue-Stays l o _ (call_all-Stays cs id m l here a linked h) λ next grows.
      same_rooms-Stays (record o.1 { env = set_actions id rest o.1.env }) o.1 _ refl
        (deliver-Stays cs id rest (record o.1 { env = set_actions id rest o.1.env }) stays
          (call_all-Keeps cs id m l a).valid (AreLinked-Grows l.rooms o.1.rooms cs grows linked)
          next)
