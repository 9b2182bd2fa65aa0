-- ===== src/Gameplay/Links.antt =====
-- Which callbacks lead to a room that is there.
use samurai_kirby_server.Prelude.{
  ℕ, String, ◌≡◌, refl, ap, sym, ◌∙◌, subst, some, Bool, true, false, ◌||◌, inl, inr, List, [], ◌∷◌,
  ◌++◌, All, All-map, All-append, ◌==◌, Option-cases, Bool-cases, arith,
}
use samurai_kirby_server.Prelude.UnorderedMap.{at, update}
use samurai_kirby_server.Environment.{
  Subscription, PlayerActionCallback, manager_callback, room_callback,
}
use samurai_kirby_server.Room.State.{Room, RoomWorld}
use samurai_kirby_server.Room.Queries.{get_available_assignment}
use samurai_kirby_server.Room.Membership.{add_player, add_player_at}
use samurai_kirby_server.Room.Joining.{add_player-Joins}
use samurai_kirby_server.RoomManager.{Place, find_if}
use samurai_kirby_server.RoomManager.Places.{rooms_of, find_if-none}

abbrev pub has_room : ℕ → List Room → Bool
has_room a [] = false
has_room a (r ∷ rest) = r.address == a || has_room a rest

has_room-append :
    (a : ℕ) (xs ys : List Room) → has_room a (xs ++ ys) ≡ (has_room a xs || has_room a ys)
has_room-append a [] ys = refl
has_room-append a (x ∷ xs) ys = ground (arith, has_room-append a xs ys)

has_room-absent :
    (a : ℕ) (rooms : List Room)
    → All (λ r. (r.address == a) ≡ false) rooms
    → has_room a rooms ≡ false
has_room-absent a [] h = refl
has_room-absent a (r ∷ rest) (here, h) = ground (arith, has_room-absent a rest h)

pub find_if-has_room :
    (a : ℕ) (rooms : List Room)
    → has_room a rooms ≡ true
    → (p : Place) × (find_if (λ r. r.address == a) rooms ≡ some p)
find_if-has_room a rooms h = elim (Option-cases (find_if (λ r. r.address == a) rooms)) [
  | inl e ↦ absurd (ground (arith, has_room-absent a rooms (find_if-none _ rooms e)))
  | inr found ↦ found
]

-- The rooms that were there are there.
abbrev pub Grows : List Room → List Room → Type 0
Grows rooms later = (a : ℕ) → has_room a rooms ≡ true → has_room a later ≡ true

pub Grows-append : (rooms : List Room) (r : Room) → Grows rooms (rooms ++ r ∷ [])
Grows-append rooms r a h = has_room-append a rooms (r ∷ []) ∙ ground (arith, h)

pub Grows-replace :
    (p : Place) (rooms : List Room) (r : Room)
    → rooms ≡ rooms_of p
    → r.address ≡ p.room.address
    → Grows rooms (p.before ++ r ∷ p.after)
Grows-replace p rooms r e same a h =
    has_room-append a p.before (r ∷ p.after)
    ∙ rw same (sym (has_room-append a p.before (p.room ∷ p.after)) ∙ ap (has_room a) (sym e) ∙ h)

pub has_room-last : (rooms : List Room) (r : Room) → has_room r.address (rooms ++ r ∷ []) ≡ true
has_room-last rooms r = has_room-append r.address rooms (r ∷ []) ∙ ground arith

pub has_room-middle : (xs ys : List Room) (r : Room) → has_room r.address (xs ++ r ∷ ys) ≡ true
has_room-middle xs ys r = has_room-append r.address xs (r ∷ ys) ∙ ground arith

abbrev pub is_linked : List Room → PlayerActionCallback → Bool
is_linked rooms manager_callback = true
is_linked rooms (room_callback a) = has_room a rooms

abbrev pub AreLinked : List Room → List Subscription → Type 0
AreLinked rooms cs = All (λ s. is_linked rooms s.callback ≡ true) cs

-- No callback leads to a room that was destroyed.
abbrev pub IsLinked : List Room → List (ℕ × List Subscription) → Type 0
IsLinked rooms m = All (λ (entry : ℕ × List Subscription). AreLinked rooms entry.1) m

is_linked-Grows :
    (rooms later : List Room) (c : PlayerActionCallback)
    → Grows rooms later
    → is_linked rooms c ≡ true
    → is_linked later c ≡ true
is_linked-Grows rooms later manager_callback g h = refl
is_linked-Grows rooms later (room_callback a) g h = g a h

pub AreLinked-Grows :
    (rooms later : List Room) (cs : List Subscription)
    → Grows rooms later
    → AreLinked rooms cs
    → AreLinked later cs
AreLinked-Grows rooms later cs g h =
    All-map _ _ cs (λ s k. is_linked-Grows rooms later s.callback g k) h

pub IsLinked-Grows :
    (rooms later : List Room) (m : List (ℕ × List Subscription))
    → Grows rooms later
    → IsLinked rooms m
    → IsLinked later m
IsLinked-Grows rooms later m g h = All-map _ _ m (λ e k. AreLinked-Grows rooms later e.1 g k) h

pub IsLinked-at :
    (rooms : List Room) (id : ℕ) (m : List (ℕ × List Subscription))
    → IsLinked rooms m
    → AreLinked rooms (at [] id m)
unfolding at
IsLinked-at rooms id [] h = tt
IsLinked-at rooms id ((j, cs) ∷ rest) (here, h) = elim (Bool-cases (j == id)) [
  | inl e ↦ rw e here
  | inr e ↦ rw e (IsLinked-at rooms id rest h)
]

pub IsLinked-update :
    (rooms : List Room) (id : ℕ) (s : Subscription) (m : List (ℕ × List Subscription))
    → is_linked rooms s.callback ≡ true
    → IsLinked rooms m
    → IsLinked rooms (update [] id (λ cs. cs ++ s ∷ []) m)
unfolding update
IsLinked-update rooms id s [] new h = ((new, tt), tt)
IsLinked-update rooms id s ((j, cs) ∷ rest) new (here, h) = elim (Bool-cases (j == id)) [
  | inl e ↦ rw e (All-append _ cs (s ∷ []) here (new, tt), h)
  | inr e ↦ rw e (here, IsLinked-update rooms id s rest new h)
]

pub add_player_address :
    (id : ℕ) (nickname : String) (w : RoomWorld)
    → (add_player id nickname w).1.room.address ≡ w.room.address
unfolding add_player add_player_at
add_player_address id nickname w = ground arith

-- Once the room of `w` is among the rooms, joining it links only to it.
pub add_player-IsLinked :
    (id : ℕ) (nickname : String) (w : RoomWorld) (rooms : List Room)
    → has_room w.room.address rooms ≡ true
    → IsLinked rooms w.env.subscriptions
    → IsLinked rooms (add_player id nickname w).1.env.subscriptions
unfolding add_player get_available_assignment
add_player-IsLinked id nickname w rooms here h =
    elim (Option-cases (get_available_assignment w.room)) [
      | inl e ↦ rw e h
      | inr (slot, e) ↦
          subst (IsLinked rooms) (sym (add_player-Joins id nickname slot w e).subscribed)
            (IsLinked-update rooms id _ w.env.subscriptions here h)
    ]
