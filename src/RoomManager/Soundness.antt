-- ===== src/RoomManager/Soundness.antt =====
-- What holds of the rooms between two calls: each is valid, and none is empty.
use samurai_kirby_server.Prelude.{
  ℕ, String, ◌≡◌, refl, sym, ap, ◌∙◌, inl, inr, false, List, [], ◌∷◌, ◌++◌, All, All-append,
  Bool-cases, Option-cases, subst, arith,
}
use samurai_kirby_server.Exec.{Exec, Result, ok}
use samurai_kirby_server.Player.{GameDifficulty}
use samurai_kirby_server.Messages.{PlayerActionMessage, join_game, leave_game}
use samurai_kirby_server.Environment.{Environment}
use samurai_kirby_server.Room.State.{Room, RoomWorld}
use samurai_kirby_server.Room.Queries.{is_empty, has_player_with_id, get_available_assignment}
use samurai_kirby_server.Room.Ticks.{tick}
use samurai_kirby_server.Room.Membership.{add_player, add_player_at, remove_player}
use samurai_kirby_server.Room.Validity.{IsValid, DrawsInRange}
use samurai_kirby_server.Room.Safety.{
  same_random-DrawsInRange, new_room-IsValid, add_player-Succeeds, remove_player-Succeeds,
  tick-Succeeds,
}
use samurai_kirby_server.Room.Frame.{tick-SameSeats}
use samurai_kirby_server.RoomManager.{
  Lobby, Place, find_if, is_open_for, add_player_to_room, remove_player_from_room, tick_rooms,
  tick_all_rooms, handle_player_message,
}
use samurai_kirby_server.RoomManager.Places.{rooms_of, find_if-IsFirst, All-before, All-after}
use samurai_kirby_server.RoomManager.Outcomes.{
  at_place, opened, add_player_to_room-none, add_player_to_room-some, remove_player_from_room-none,
  remove_player_from_room-some,
}

pub record IsLive (r : Room) : Type 0 where
  pub valid : IsValid r
  pub occupied : is_empty r ≡ false

abbrev pub AreLive : List Room → Type 0
AreLive = All IsLive

-- A call that returns, leaves live rooms and keeps the generator.
pub record Preserves (m : Exec Lobby (Unit {0})) (l : Lobby) : Type 0 where
  pub returned : (m l).0 ≡ ok tt
  pub live : AreLive (m l).1.rooms
  pub same_random : (m l).1.env.random ≡ l.env.random

Preserves-eq :
    (m : Exec Lobby (Unit {0})) (l k : Lobby)
    → m l ≡ (ok tt, k)
    → AreLive k.rooms
    → k.env.random ≡ l.env.random
    → Preserves m l
Preserves-eq m l k e a s = record {
  returned = ap (λ (r : Result (Unit {0}) × Lobby). r.0) e;
  live = subst (λ (r : Result (Unit {0}) × Lobby). AreLive r.1.rooms) (sym e) a;
  same_random = ap (λ (r : Result (Unit {0}) × Lobby). r.1.env.random) e ∙ s;
}

AreLive-replace :
    (p : Place) (rooms : List Room) (r : Room)
    → rooms ≡ rooms_of p
    → AreLive rooms
    → IsLive r
    → AreLive (p.before ++ r ∷ p.after)
AreLive-replace p rooms r e a n =
    let b = subst AreLive e a in
    All-append IsLive p.before (r ∷ p.after) (All-before IsLive p.before (p.room ∷ p.after) b)
      (n, (All-after IsLive p.before (p.room ∷ p.after) b).1)

AreLive-drop :
    (p : Place) (rooms : List Room)
    → rooms ≡ rooms_of p
    → AreLive rooms
    → AreLive (p.before ++ p.after)
AreLive-drop p rooms e a =
    let b = subst AreLive e a in
    All-append IsLive p.before p.after (All-before IsLive p.before (p.room ∷ p.after) b)
      (All-after IsLive p.before (p.room ∷ p.after) b).1

pub found-IsLive :
    (p : Place) (rooms : List Room) → rooms ≡ rooms_of p → AreLive rooms → IsLive p.room
found-IsLive p rooms e a = (All-after IsLive p.before (p.room ∷ p.after) (subst AreLive e a)).0

add_player-occupied :
    (id : ℕ) (nickname : String) (w : RoomWorld)
    → is_empty (add_player id nickname w).1.room ≡ false
unfolding add_player add_player_at get_available_assignment is_empty
add_player-occupied id nickname w = ground arith

add_player-IsLive :
    (id : ℕ) (nickname : String) (w : RoomWorld)
    → IsValid w.room
    → IsLive (add_player id nickname w).1.room
add_player-IsLive id nickname w v = record {
  valid = (add_player-Succeeds id nickname w v).valid;
  occupied = add_player-occupied id nickname w;
}

pub add_player_to_room-Preserves :
    (id : ℕ) (nickname : String) (d : GameDifficulty) (l : Lobby)
    → AreLive l.rooms
    → Preserves (add_player_to_room id nickname d) l
add_player_to_room-Preserves id nickname d l a =
    elim (Option-cases (find_if (is_open_for d) l.rooms)) [
      | inl e ↦
          Preserves-eq _ l _ (add_player_to_room-none id nickname d l e)
            (All-append IsLive l.rooms _ a
              (add_player-IsLive id nickname (opened d l) (new_room-IsValid _ _), tt))
            (add_player-Succeeds id nickname (opened d l) (new_room-IsValid _ _)).same_random
      | inr (p, e) ↦
          let first = find_if-IsFirst _ l.rooms p e in
          let here = found-IsLive p l.rooms first.split a in
          Preserves-eq _ l _ (add_player_to_room-some id nickname d l p e here.valid)
            (AreLive-replace p l.rooms _ first.split a
              (add_player-IsLive id nickname (at_place p l) here.valid))
            (add_player-Succeeds id nickname (at_place p l) here.valid).same_random
    ]

pub remove_player_from_room-Preserves :
    (id : ℕ) (l : Lobby) → AreLive l.rooms → Preserves (remove_player_from_room id) l
remove_player_from_room-Preserves id l a =
    elim (Option-cases (find_if (has_player_with_id id) l.rooms)) [
      | inl e ↦ Preserves-eq _ l _ (remove_player_from_room-none id l e) a refl
      | inr (p, e) ↦
          let first = find_if-IsFirst _ l.rooms p e in
          let here = found-IsLive p l.rooms first.split a in
          let left = remove_player-Succeeds id (at_place p l) here.valid in
          let result = remove_player_from_room-some id l p e here.valid in
          elim (Bool-cases (is_empty (remove_player id (at_place p l)).1.room)) [
            | inl gone ↦
                Preserves-eq _ l _ (rw gone at result) (AreLive-drop p l.rooms first.split a)
                  left.same_random
            | inr stays ↦
                Preserves-eq _ l _ (rw stays at result)
                  (AreLive-replace p l.rooms _ first.split a
                    (record { valid = left.valid; occupied = stays }))
                  left.same_random
          ]
    ]

tick-occupied : (w : RoomWorld) → is_empty w.room ≡ false → is_empty (tick w).1.room ≡ false
unfolding is_empty
tick-occupied w h = ground (arith, tick-SameSeats w)

-- The rooms after a round of ticks.
pub record TicksWell (rooms : List Room) (e : Environment) : Type 0 where
  pub returned : (tick_rooms rooms e).result ≡ ok tt
  pub live : AreLive (tick_rooms rooms e).rooms
  pub same_random : (tick_rooms rooms e).env.random ≡ e.random

tick_rooms-TicksWell :
    (rooms : List Room) (e : Environment) → DrawsInRange e → AreLive rooms → TicksWell rooms e
unfolding tick_rooms
tick_rooms-TicksWell [] e h a = record { returned = refl; live = tt; same_random = refl }
tick_rooms-TicksWell (r ∷ rest) e h a =
    let w : RoomWorld = record { room = r; env = e } in
    let first = tick-Succeeds w h a.0.valid in
    let later =
      tick_rooms-TicksWell rest (tick w).1.env
        (same_random-DrawsInRange e (tick w).1.env first.same_random h) a.1 in
    let here : IsLive (tick w).1.room = record {
      valid = first.valid;
      occupied = tick-occupied w a.0.occupied;
    } in
    record {
      returned = rw (first.returned, tick_rooms) later.returned;
      live = rw (first.returned, tick_rooms) (here, later.live);
      same_random = rw (first.returned, tick_rooms) (later.same_random ∙ first.same_random);
    }

-- If draws lie between their bounds and each room is valid and not empty, then a round of ticks
-- throws nothing and leaves each room valid and not empty, and the generator as it was.
pub tick_all_rooms-Preserves :
    (l : Lobby) → DrawsInRange l.env → AreLive l.rooms → Preserves tick_all_rooms l
unfolding tick_all_rooms
tick_all_rooms-Preserves l h a =
    let t = tick_rooms-TicksWell l.rooms l.env h a in
    record { returned = t.returned; live = t.live; same_random = t.same_random }

-- If each room is valid and not empty, then every message of a player to the room manager is
-- handled without an exception and leaves each room valid and not empty, and the generator as it
-- was.
pub handle_player_message-Preserves :
    (id : ℕ) (m : PlayerActionMessage) (l : Lobby)
    → AreLive l.rooms
    → Preserves (handle_player_message id m) l
unfolding handle_player_message
handle_player_message-Preserves id (join_game nickname d) l a =
    add_player_to_room-Preserves id nickname d l a
handle_player_message-Preserves id leave_game l a = remove_player_from_room-Preserves id l a
handle_player_message-Preserves id _ l a = record { returned = refl; live = a; same_random = refl }
