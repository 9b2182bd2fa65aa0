-- ===== src/RoomManager/Seating.antt =====
-- The lobby as a bag of players: how many slots of its rooms hold a given id.
use samurai_kirby_server.Prelude.{
  ℕ, ◌+◌, ◌-◌, String, ◌≡◌, refl, ap, ◌∙◌, inl, inr, true, false, List, [], ◌∷◌, ◌++◌, ◌==◌, All,
  Bool-cases, Option-cases, arith,
}
use samurai_kirby_server.Player.{GameDifficulty}
use samurai_kirby_server.Environment.{Environment}
use samurai_kirby_server.Room.State.{Room, new_room}
use samurai_kirby_server.Room.Queries.{is_full, is_empty, has_player_with_id}
use samurai_kirby_server.Room.Ticks.{tick}
use samurai_kirby_server.Room.Membership.{add_player, remove_player}
use samurai_kirby_server.Room.Seats.{
  one_if, room_seats, add_player-room_seats, remove_player-room_seats, is_empty-room_seats,
  tick-room_seats,
}
use samurai_kirby_server.RoomManager.{
  Lobby, Place, find_if, is_open_for, add_player_to_room, remove_player_from_room, tick_rooms,
  tick_all_rooms,
}
use samurai_kirby_server.RoomManager.Places.{rooms_of, find_if-IsFirst, find_if-none}
use samurai_kirby_server.RoomManager.Outcomes.{
  at_place, opened, add_player_to_room-none, add_player_to_room-some, remove_player_from_room-none,
  remove_player_from_room-some,
}
use samurai_kirby_server.RoomManager.Soundness.{AreLive, found-IsLive}

-- How many slots hold a player of this id.
abbrev pub seats : ℕ → List Room → ℕ
seats j [] = 0
seats j (r ∷ rest) = room_seats j r + seats j rest

seats-append : (j : ℕ) (xs ys : List Room) → seats j (xs ++ ys) ≡ seats j xs + seats j ys
seats-append j [] ys = omega arith
seats-append j (x ∷ xs) ys = omega (arith, seats-append j xs ys)

absent-seats :
    (id : ℕ) (rooms : List Room)
    → All (λ r. has_player_with_id id r ≡ false) rooms
    → seats id rooms ≡ 0
unfolding has_player_with_id
absent-seats id [] h = refl
absent-seats id (r ∷ rest) h = ground (arith, h.0, absent-seats id rest h.1)

seats-split :
    (j : ℕ) (rooms : List Room) (p : Place)
    → rooms ≡ rooms_of p
    → seats j rooms ≡ seats j p.before + (room_seats j p.room + seats j p.after)
seats-split j rooms p e = ap (seats j) e ∙ seats-append j p.before (p.room ∷ p.after)

is_open_for-is_full : (d : GameDifficulty) (r : Room) → is_open_for d r ≡ true → is_full r ≡ false
is_open_for-is_full d r h = ground arith

opened-room_seats :
    (id : ℕ) (nickname : String) (d : GameDifficulty) (l : Lobby) (j : ℕ)
    → room_seats j (add_player id nickname (opened d l)).1.room ≡ one_if (id == j)
unfolding new_room is_full
opened-room_seats id nickname d l j =
    add_player-room_seats id nickname (opened d l) j refl ∙ omega arith

-- A player that joins gets exactly one slot, and no other player loses or gains one.
pub seats-add_player_to_room :
    (id : ℕ) (nickname : String) (d : GameDifficulty) (l : Lobby) (j : ℕ)
    → AreLive l.rooms
    → seats j (add_player_to_room id nickname d l).1.rooms ≡ seats j l.rooms + one_if (id == j)
seats-add_player_to_room id nickname d l j a =
    elim (Option-cases (find_if (is_open_for d) l.rooms)) [
      | inl e ↦ rw (add_player_to_room-none id nickname d l e) (
          omega (
            arith,
            seats-append j l.rooms ((add_player id nickname (opened d l)).1.room ∷ []),
            opened-room_seats id nickname d l j,
          ))
      | inr (p, e) ↦
          let first = find_if-IsFirst _ l.rooms p e in
          let here = found-IsLive p l.rooms first.split a in
          let next = (add_player id nickname (at_place p l)).1.room in
          rw (add_player_to_room-some id nickname d l p e here.valid) (
            omega (
              arith,
              seats-split j l.rooms p first.split,
              seats-append j p.before (next ∷ p.after),
              add_player-room_seats id nickname (at_place p l) j
                  (is_open_for-is_full d p.room first.passes),
            ))
    ]

-- Among several slots of one id, a leaving player frees one; if it has none, nothing changes.
pub seats-remove_player_from_room :
    (id : ℕ) (l : Lobby) (j : ℕ)
    → AreLive l.rooms
    → seats j (remove_player_from_room id l).1.rooms ≡ seats j l.rooms - one_if (id == j)
seats-remove_player_from_room id l j a =
    elim (Option-cases (find_if (has_player_with_id id) l.rooms)) [
      | inl e ↦
          rw (remove_player_from_room-none id l e)
            (ground (arith, absent-seats id l.rooms (find_if-none _ l.rooms e)))
      | inr (p, e) ↦
          let first = find_if-IsFirst _ l.rooms p e in
          let here = found-IsLive p l.rooms first.split a in
          let left = (remove_player id (at_place p l)).1.room in
          let freed = remove_player-room_seats id (at_place p l) j here.valid first.passes in
          rw (remove_player_from_room-some id l p e here.valid) (elim (Bool-cases (is_empty left)) [
            | inl gone ↦ rw gone (
                omega (
                  arith,
                  seats-split j l.rooms p first.split,
                  seats-append j p.before p.after,
                  freed,
                  is_empty-room_seats j left gone,
                ))
            | inr stays ↦ rw stays (
                omega (
                  arith,
                  seats-split j l.rooms p first.split,
                  seats-append j p.before (left ∷ p.after),
                  freed,
                ))
          ])
    ]

seats-tick_rooms :
    (rooms : List Room) (e : Environment) (j : ℕ)
    → seats j (tick_rooms rooms e).rooms ≡ seats j rooms
unfolding tick_rooms
seats-tick_rooms [] e j = refl
seats-tick_rooms (r ∷ rest) e j = ground (
  arith,
  tick-room_seats (record { room = r; env = e }) j,
  seats-tick_rooms rest (tick (record { room = r; env = e })).1.env j,
)

-- A round of ticks moves nobody.
pub seats-tick_all_rooms :
    (l : Lobby) (j : ℕ) → seats j (tick_all_rooms l).1.rooms ≡ seats j l.rooms
unfolding tick_all_rooms
seats-tick_all_rooms l j = seats-tick_rooms l.rooms l.env j
