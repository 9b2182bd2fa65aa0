-- ===== src/RoomManager/Fixtures.antt =====
-- A lobby for the examples.
use samurai_kirby_server.Prelude.{none, some, [], ◌∷◌, arith}
use samurai_kirby_server.Room.State.{waiting_players, started}
use samurai_kirby_server.Room.Queries.{is_empty, is_full}
use samurai_kirby_server.Room.Fixtures.{calm, alice, bob, room_of}
use samurai_kirby_server.RoomManager.{Lobby}
use samurai_kirby_server.RoomManager.Soundness.{AreLive}

-- A game that is on, and a player who waits for another.
abbrev pub evening : Lobby
evening = record {
  rooms =
      room_of started (some alice) (some bob)
      ∷ record (room_of waiting_players (some (record alice { id = 3 })) none) { address = 1 }
      ∷ [];
  next_address = 2;
  env = calm;
}

pub evening-AreLive : AreLive evening.rooms
unfolding is_full is_empty
evening-AreLive = (ground arith, (ground arith, tt))
