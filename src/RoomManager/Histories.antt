-- ===== src/RoomManager/Histories.antt =====
-- Every history of calls to the room manager, against the bag of players that it stands for.
use samurai_kirby_server.Prelude.{ℕ, ◌+◌, ◌-◌, String, ◌≡◌, refl, ap, ◌∙◌, List, [], ◌∷◌, ◌==◌}
use samurai_kirby_server.Exec.{Exec}
use samurai_kirby_server.Player.{GameDifficulty}
use samurai_kirby_server.Room.Validity.{DrawsInRange}
use samurai_kirby_server.Room.Safety.{same_random-DrawsInRange}
use samurai_kirby_server.Room.Seats.{one_if}
use samurai_kirby_server.RoomManager.{
  Lobby, add_player_to_room, remove_player_from_room, tick_all_rooms,
}
use samurai_kirby_server.RoomManager.Soundness.{
  AreLive, Preserves, add_player_to_room-Preserves, remove_player_from_room-Preserves,
  tick_all_rooms-Preserves,
}
use samurai_kirby_server.RoomManager.Seating.{
  seats, seats-add_player_to_room, seats-remove_player_from_room, seats-tick_all_rooms,
}

pub data LobbyCall : Type 0 where
  joins : ℕ → String → GameDifficulty → LobbyCall
  leaves : ℕ → LobbyCall
  round : LobbyCall

abbrev pub run : LobbyCall → Exec Lobby (Unit {0})
run (joins id nickname difficulty) = add_player_to_room id nickname difficulty
run (leaves id) = remove_player_from_room id
run round = tick_all_rooms

pub run_all : List LobbyCall → Lobby → Lobby
run_all [] l = l
run_all (c ∷ cs) l = run_all cs (run c l).1

-- The bag: how often the id `j` is in, after a call, if it was in `n` times.
abbrev pub counted : ℕ → LobbyCall → ℕ → ℕ
counted j (joins id nickname difficulty) n = n + one_if (id == j)
counted j (leaves id) n = n - one_if (id == j)
counted j round n = n

abbrev pub counted_all : ℕ → List LobbyCall → ℕ → ℕ
counted_all j [] n = n
counted_all j (c ∷ cs) n = counted_all j cs (counted j c n)

run-Preserves :
    (c : LobbyCall) (l : Lobby) → DrawsInRange l.env → AreLive l.rooms → Preserves (run c) l
run-Preserves (joins id nickname difficulty) l h a =
    add_player_to_room-Preserves id nickname difficulty l a
run-Preserves (leaves id) l h a = remove_player_from_room-Preserves id l a
run-Preserves round l h a = tick_all_rooms-Preserves l h a

seats-run :
    (c : LobbyCall) (l : Lobby) (j : ℕ)
    → AreLive l.rooms
    → seats j (run c l).1.rooms ≡ counted j c (seats j l.rooms)
seats-run (joins id nickname difficulty) l j a =
    seats-add_player_to_room id nickname difficulty l j a
seats-run (leaves id) l j a = seats-remove_player_from_room id l j a
seats-run round l j a = seats-tick_all_rooms l j

-- If draws lie between their bounds and each room is valid and not empty, then after any list of
-- joins, leaves and rounds of ticks each room is valid and not empty again, and each id sits in as
-- many slots as the bag counts: one more for each join, one less for each leave while there is one,
-- and the same for a round.
pub run_all-refines_bag :
    (cs : List LobbyCall) (l : Lobby) (j : ℕ)
    → DrawsInRange l.env
    → AreLive l.rooms
    → AreLive (run_all cs l).rooms
      × (seats j (run_all cs l).rooms ≡ counted_all j cs (seats j l.rooms))
unfolding run_all
run_all-refines_bag [] l j h a = (a, refl)
run_all-refines_bag (c ∷ cs) l j h a =
    let after = run-Preserves c l h a in
    let rest =
      run_all-refines_bag cs (run c l).1 j
        (same_random-DrawsInRange l.env (run c l).1.env after.same_random h) after.live in
    (rest.0, rest.1 ∙ ap (counted_all j cs) (seats-run c l j a))
