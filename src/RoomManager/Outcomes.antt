-- ===== src/RoomManager/Outcomes.antt =====
-- What the calls of the room manager come to, where no room throws.
use samurai_kirby_server.Prelude.{
  ℕ, suc, String, ◌≡◌, none, some, [], ◌∷◌, ◌++◌, if◌then◌else◌, pos, arith,
}
use samurai_kirby_server.Exec.{ok}
use samurai_kirby_server.Player.{GameDifficulty}
use samurai_kirby_server.Room.State.{RoomConfig, RoomWorld, default_config, new_room}
use samurai_kirby_server.Room.Queries.{is_empty, has_player_with_id}
use samurai_kirby_server.Room.Membership.{add_player, remove_player}
use samurai_kirby_server.Room.Validity.{IsValid}
use samurai_kirby_server.Room.Safety.{new_room-IsValid, add_player-Succeeds, remove_player-Succeeds}
use samurai_kirby_server.RoomManager.{
  Lobby, Place, find_if, is_open_for, add_room_with_player, add_player_to_room,
  remove_player_from_room,
}

-- The room at a place, in the lobby's environment.
abbrev pub at_place : Place → Lobby → RoomWorld
at_place p l = record { room = p.room; env = l.env }

-- The lobby in which the room at `p` and the environment are those of `w`.
abbrev pub replaced : Place → RoomWorld → Lobby → Lobby
replaced p w l = record l { rooms = p.before ++ w.room ∷ p.after; env = w.env }

abbrev pub default_room_config : GameDifficulty → ℕ → RoomConfig
default_room_config difficulty seconds = record {
  difficulty = difficulty;
  seconds_before_input_request = pos seconds;
  no_input_timeout = pos 5;
  one_player_input_only_timeout = pos 1;
}

-- A room that is new, before anybody is in it.
abbrev pub opened : GameDifficulty → Lobby → RoomWorld
opened difficulty l = record {
  room = new_room l.next_address (default_room_config difficulty (l.env.random l.env.draws 5 10));
  env = record l.env { draws = suc l.env.draws };
}

-- The lobby with one more room, at the end.
abbrev pub extended : RoomWorld → Lobby → Lobby
extended w l = record {
  rooms = l.rooms ++ w.room ∷ [];
  next_address = suc l.next_address;
  env = w.env;
}

abbrev without : Place → RoomWorld → Lobby → Lobby
without p w l = record l { rooms = p.before ++ p.after; env = w.env }

module _ (id : ℕ) (nickname : String) (difficulty : GameDifficulty) (l : Lobby) where
  add_room_with_player-eq :
      add_room_with_player id nickname difficulty l
      ≡ (ok tt, extended (add_player id nickname (opened difficulty l)).1 l)
  unfolding add_room_with_player default_config
  add_room_with_player-eq =
      ground (arith, add_player-Succeeds id nickname (opened difficulty l) (new_room-IsValid _ _))

  -- Where no open room has the difficulty, a new one is made for the player.
  pub add_player_to_room-none :
      find_if (is_open_for difficulty) l.rooms ≡ none
      → add_player_to_room id nickname difficulty l
        ≡ (ok tt, extended (add_player id nickname (opened difficulty l)).1 l)
  unfolding add_player_to_room
  add_player_to_room-none h = ground (arith, add_room_with_player-eq)

  -- Else the player comes to the first such room.
  pub add_player_to_room-some :
      (p : Place)
      → find_if (is_open_for difficulty) l.rooms ≡ some p
      → IsValid p.room
      → add_player_to_room id nickname difficulty l
        ≡ (ok tt, replaced p (add_player id nickname (at_place p l)).1 l)
  unfolding add_player_to_room
  add_player_to_room-some p h v = ground (arith, add_player-Succeeds id nickname (at_place p l) v)

module _ (id : ℕ) (l : Lobby) where
  pub remove_player_from_room-none :
      find_if (has_player_with_id id) l.rooms ≡ none → remove_player_from_room id l ≡ (ok tt, l)
  unfolding remove_player_from_room
  remove_player_from_room-none h = ground arith

  -- The room that the player left goes too, if it is empty then.
  pub remove_player_from_room-some :
      (p : Place)
      → find_if (has_player_with_id id) l.rooms ≡ some p
      → IsValid p.room
      → let left = (remove_player id (at_place p l)).1 in
        remove_player_from_room id l
        ≡ (ok tt, if is_empty left.room then without p left l else replaced p left l)
  unfolding remove_player_from_room
  remove_player_from_room-some p h v = ground (arith, remove_player-Succeeds id (at_place p l) v)
