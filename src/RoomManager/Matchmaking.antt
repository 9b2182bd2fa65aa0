-- ===== src/RoomManager/Matchmaking.antt =====
-- Which room a player comes to.
use samurai_kirby_server.Prelude.{
  ℕ, String, ◌≡◌, refl, ◌⊎◌, inl, inr, true, false, List, [], ◌∷◌, ◌++◌, All, Option-cases, arith,
  ap,
}
use samurai_kirby_server.Exec.{Result}
use samurai_kirby_server.Player.{GameDifficulty, same_difficulty, new_player}
use samurai_kirby_server.Room.State.{Room, RoomWorld, new_room}
use samurai_kirby_server.Room.Queries.{is_full, has_player_with_id, get_available_assignment}
use samurai_kirby_server.Room.Membership.{add_player, add_player_at}
use samurai_kirby_server.RoomManager.{Lobby, Place, find_if, is_open_for, add_player_to_room}
use samurai_kirby_server.RoomManager.Places.{rooms_of, find_if-IsFirst, find_if-none}
use samurai_kirby_server.RoomManager.Outcomes.{
  at_place, opened, add_player_to_room-none, add_player_to_room-some,
}
use samurai_kirby_server.RoomManager.Soundness.{AreLive, found-IsLive}

-- `p` is where the player `id`, who asked for the difficulty `d`, came to when `rooms` became
-- `after`.
pub record IsMatched (id : ℕ) (d : GameDifficulty) (rooms after : List Room) (p : Place)
    : Type 0 where
  pub seated : has_player_with_id id p.room ≡ true
  pub difficulty : same_difficulty p.room.config.difficulty d ≡ true
  pub result : after ≡ rooms_of p
  pub no_earlier : All (λ r. is_open_for d r ≡ false) p.before
  pub source :
      ((r : Room) × (rooms ≡ p.before ++ r ∷ p.after) × (is_open_for d r ≡ true))
      ⊎ ((rooms ≡ p.before) × (p.after ≡ []))

add_player-seated :
    (id : ℕ) (nickname : String) (w : RoomWorld)
    → is_full w.room ≡ false
    → (has_player_with_id id (add_player id nickname w).1.room ≡ true)
      × ((add_player id nickname w).1.room.config ≡ w.room.config)
unfolding add_player add_player_at get_available_assignment is_full has_player_with_id new_player
add_player-seated id nickname w h = ground arith

-- If each room is valid and not empty, a player that joins sits afterwards in a room of the
-- difficulty it asked for. That room was the first one of that difficulty with a free slot or, if
-- there was none, is a new one at the end; the other rooms are the same and in the same order.
pub add_player_to_room-IsMatched :
    (id : ℕ) (nickname : String) (d : GameDifficulty) (l : Lobby)
    → AreLive l.rooms
    → (p : Place) × IsMatched id d l.rooms (add_player_to_room id nickname d l).1.rooms p
unfolding is_full new_room
add_player_to_room-IsMatched id nickname d l a =
    elim (Option-cases (find_if (is_open_for d) l.rooms)) [
      | inl e ↦
          let new = add_player-seated id nickname (opened d l) refl in
          (
            record {
              before = l.rooms;
              room = (add_player id nickname (opened d l)).1.room;
              after = [];
            },
            record {
              seated = new.0;
              difficulty = rw new.1 (ground arith);
              result =
                  ap (λ (r : Result (Unit {0}) × Lobby). r.1.rooms)
                    (add_player_to_room-none id nickname d l e);
              no_earlier = find_if-none _ l.rooms e;
              source = inr (refl, refl);
            },
          )
      | inr (p, e) ↦
          let first = find_if-IsFirst _ l.rooms p e in
          let here = found-IsLive p l.rooms first.split a in
          let came = add_player-seated id nickname (at_place p l) (ground (arith, first.passes)) in
          (
            record p { room = (add_player id nickname (at_place p l)).1.room },
            record {
              seated = came.0;
              difficulty = rw came.1 (ground (arith, first.passes));
              result =
                  ap (λ (r : Result (Unit {0}) × Lobby). r.1.rooms)
                    (add_player_to_room-some id nickname d l p e here.valid);
              no_earlier = first.earlier;
              source = inl (p.room, first.split, first.passes);
            },
          )
    ]
