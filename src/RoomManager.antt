-- ===== src/RoomManager.antt =====
-- gameplay/RoomManager.h and RoomManager.cpp: the rooms, and which of them a player comes to.
pub mod Places
pub mod Validity
pub mod Strangers
pub mod Outcomes
pub mod Soundness
pub mod Seating
pub mod Histories
pub mod Matchmaking
pub mod Welcome
pub mod Fixtures
mod Examples
use samurai_kirby_server.Prelude.{
  ℕ, suc, String, Option, none, some, Bool, not, ◌&&◌, List, [], ◌∷◌, ◌++◌, if◌then◌else◌,
}
use samurai_kirby_server.Exec.{Exec, Result, ok, err, pure, continue, gets, ◌>>=◌, ◌>>◌}
use samurai_kirby_server.Player.{GameDifficulty, same_difficulty}
use samurai_kirby_server.Messages.{PlayerActionMessage, join_game, leave_game}
use samurai_kirby_server.Environment.{Environment}
use samurai_kirby_server.Room.State.{Room, RoomWorld, default_config, new_room}
use samurai_kirby_server.Room.Queries.{is_full, is_empty, has_player_with_id}
use samurai_kirby_server.Room.Ticks.{tick}
use samurai_kirby_server.Room.Membership.{add_player, remove_player}

-- `rooms` in the order of the vector. A new room lies at `next_address`: the address of a room that
-- is gone is not used again.
pub record Lobby : Type 0 where
  pub rooms : List Room
  pub next_address : ℕ
  pub env : Environment

-- A room in the vector, with the rooms before and after it.
pub record Place : Type 0 where
  pub before : List Room
  pub room : Room
  pub after : List Room

abbrev put_before : Room → Option Place → Option Place
put_before r none = none
put_before r (some p) = some (record p { before = r ∷ p.before })

-- std::find_if
unfoldable pub find_if : (Room → Bool) → List Room → Option Place
find_if test [] = none
find_if test (r ∷ rest) =
    if test r
    then some (record { before = []; room = r; after = rest })
    else put_before r (find_if test rest)

-- A method call on the room at a place.
abbrev pub in_place : Place → Exec RoomWorld (Unit {0}) → Exec Lobby Room
in_place p m l =
    let o = m (record { room = p.room; env = l.env }) in
    continue o.0 (record l { rooms = p.before ++ o.1.room ∷ p.after; env = o.1.env })
      (λ _. pure o.1.room)

abbrev pub is_open_for : GameDifficulty → Room → Bool
is_open_for difficulty r = not (is_full r) && same_difficulty r.config.difficulty difficulty

abbrev in_env : {A : Type 0} → Exec Environment A → Exec Lobby A
in_env m l = ((m l.env).0, record l { env = (m l.env).1 })

-- `make_unique<Room>`, `addPlayer` on the new room, and `push_back`.
unfoldable pub add_room_with_player : ℕ → String → GameDifficulty → Exec Lobby (Unit {0})
unfolding new_room
add_room_with_player player_id nickname difficulty = do
  config ← in_env (default_config difficulty)
  address ← gets (λ l. l.next_address)
  let room = new_room address config
  joined ← (λ l.
      let o = add_player player_id nickname (record { room = room; env = l.env }) in
      continue o.0 (record l { next_address = suc l.next_address; env = o.1.env })
        (λ _. pure o.1.room))
  λ l. (ok tt, record l { rooms = l.rooms ++ joined ∷ [] })

unfoldable pub add_player_to_room : ℕ → String → GameDifficulty → Exec Lobby (Unit {0})
add_player_to_room player_id nickname difficulty = do
  rooms ← gets (λ l. l.rooms)
  elim (find_if (is_open_for difficulty) rooms) [
    | none ↦ add_room_with_player player_id nickname difficulty
    | some place ↦ do joined ← in_place place (add_player player_id nickname); pure tt
  ]

unfoldable pub remove_player_from_room : ℕ → Exec Lobby (Unit {0})
remove_player_from_room player_id = do
  rooms ← gets (λ l. l.rooms)
  elim (find_if (has_player_with_id player_id) rooms) [
    | none ↦ pure tt
    | some place ↦ do
      left ← in_place place (remove_player player_id)
      if is_empty left
          then (λ l. (ok tt, record l { rooms = place.before ++ place.after }))
          else pure tt
  ]

-- The loop of tickAllRooms. An exception ends it, and the rooms after that one are not ticked.
pub record Ticked : Type 0 where
  pub result : Result (Unit {0})
  pub rooms : List Room
  pub env : Environment

unfoldable pub tick_rooms : List Room → Environment → Ticked
tick_rooms [] e = record { result = ok tt; rooms = []; env = e }
tick_rooms (r ∷ rest) e =
    let o = tick (record { room = r; env = e }) in
    elim o.0 [
      | ok _ ↦
          let later = tick_rooms rest o.1.env in record later { rooms = o.1.room ∷ later.rooms }
      | err x ↦ record { result = err x; rooms = o.1.room ∷ rest; env = o.1.env }
    ]

unfoldable pub tick_all_rooms : Exec Lobby (Unit {0})
unfolding tick_rooms
tick_all_rooms l =
    let t = tick_rooms l.rooms l.env in (t.result, record l { rooms = t.rooms; env = t.env })

unfoldable pub handle_player_message : ℕ → PlayerActionMessage → Exec Lobby (Unit {0})
handle_player_message player_id (join_game nickname game_difficulty) =
    add_player_to_room player_id nickname game_difficulty
handle_player_message player_id leave_game = remove_player_from_room player_id
handle_player_message player_id _ = pure tt
