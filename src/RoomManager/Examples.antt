-- ===== src/RoomManager/Examples.antt =====
-- The theorems on the room manager at a concrete lobby, and runs of the code.
use samurai_kirby_server.Prelude.{◌≡◌, [], ◌∷◌}
use samurai_kirby_server.Player.{easy, hard}
use samurai_kirby_server.Room.Fixtures.{calm-DrawsInRange}
use samurai_kirby_server.RoomManager.{Place, add_player_to_room}
use samurai_kirby_server.RoomManager.Fixtures.{evening, evening-AreLive}
use samurai_kirby_server.RoomManager.Soundness.{AreLive}
use samurai_kirby_server.RoomManager.Seating.{seats}
use samurai_kirby_server.RoomManager.Histories.{
  joins, leaves, round, run_all, counted_all, run_all-refines_bag,
}
use samurai_kirby_server.RoomManager.Matchmaking.{IsMatched, add_player_to_room-IsMatched}

run_all-refines_bag_example :
    AreLive (run_all (joins 4 "dan" hard ∷ round ∷ leaves 1 ∷ []) evening).rooms
    × (seats 1 (run_all (joins 4 "dan" hard ∷ round ∷ leaves 1 ∷ []) evening).rooms
        ≡ counted_all 1 (joins 4 "dan" hard ∷ round ∷ leaves 1 ∷ []) 1)
run_all-refines_bag_example =
    run_all-refines_bag (joins 4 "dan" hard ∷ round ∷ leaves 1 ∷ []) evening 1 calm-DrawsInRange
      evening-AreLive

add_player_to_room-IsMatched_example :
    (p : Place) × IsMatched 4 easy evening.rooms (add_player_to_room 4 "dan" easy evening).1.rooms p
add_player_to_room-IsMatched_example =
    add_player_to_room-IsMatched 4 "dan" easy evening evening-AreLive
