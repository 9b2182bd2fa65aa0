-- ===== src/Room/Frame.antt =====
-- What the calls of a room leave alone: who sits where, the configuration and the address.
use samurai_kirby_server.Prelude.{ℕ, suc, ◌≡◌, ◌≢◌, refl, ◌∙◌, Option, none, some, arith}
use samurai_kirby_server.Player.{Player}
use samurai_kirby_server.Messages.{PlayerActionMessage, leave_game}
use samurai_kirby_server.Room.State.{
  Room, RoomWorld, GameplayState, waiting_players, started, expecting_input, over,
}
use samurai_kirby_server.Room.Queries.{get_player_by_id}
use samurai_kirby_server.Room.Ticks.{
  stamped, request_input, request_input_when_due, handle_everyone_ready, handle_everyone_can_play,
  handle_one_player_played, handle_everyone_played, handle_timeout, handle_replay, tick_in, tick,
}
use samurai_kirby_server.Room.Actions.{handle_player_message}

abbrev pub id_of : Option Player → Option ℕ
id_of none = none
id_of (some p) = some p.id

pub record SameSeats (r s : Room) : Type 0 where
  pub id1 : id_of s.player1 ≡ id_of r.player1
  pub id2 : id_of s.player2 ≡ id_of r.player2
  pub config : s.config ≡ r.config
  pub address : s.address ≡ r.address

SameSeats-trans : (r s t : Room) → SameSeats r s → SameSeats s t → SameSeats r t
SameSeats-trans r s t h k = record {
  id1 = k.id1 ∙ h.id1;
  id2 = k.id2 ∙ h.id2;
  config = k.config ∙ h.config;
  address = k.address ∙ h.address;
}

abbrev pub Keeps : RoomWorld → RoomWorld → Type 0
Keeps w v = SameSeats w.room v.room

request_input-Keeps : (w : RoomWorld) → Keeps w (request_input w).1
unfolding request_input
request_input-Keeps w = ground arith

request_input_when_due-Keeps : (w : RoomWorld) → Keeps w (request_input_when_due w).1
unfolding request_input_when_due
request_input_when_due-Keeps w =
    ground (
      arith,
      request_input-Keeps (record w { env = record w.env { readings = suc w.env.readings } }),
    )

pub can_play-Keeps : (w : RoomWorld) → Keeps w (handle_everyone_can_play w).1
unfolding handle_everyone_can_play
can_play-Keeps w =
    ground (arith, request_input_when_due-Keeps w, request_input_when_due-Keeps (stamped w))

everyone_ready-Keeps : (w : RoomWorld) → Keeps w (handle_everyone_ready w).1
unfolding handle_everyone_ready
everyone_ready-Keeps w = ground arith

pub one_played-Keeps : (w : RoomWorld) → Keeps w (handle_one_player_played w).1
unfolding handle_one_player_played
one_played-Keeps w = ground arith

pub everyone_played-Keeps : (w : RoomWorld) → Keeps w (handle_everyone_played w).1
unfolding handle_everyone_played
everyone_played-Keeps w = ground arith

timeout-Keeps : (w : RoomWorld) → Keeps w (handle_timeout w).1
unfolding handle_timeout
timeout-Keeps w = ground arith

replay-Keeps : (w : RoomWorld) → Keeps w (handle_replay w).1
unfolding handle_replay
replay-Keeps w = ground arith

tick_in-Keeps : (g : GameplayState) (w : RoomWorld) → Keeps w (tick_in g w).1
unfolding tick_in
tick_in-Keeps waiting_players w = everyone_ready-Keeps w
tick_in-Keeps started w =
    ground (arith, can_play-Keeps w, one_played-Keeps (handle_everyone_can_play w).1)
tick_in-Keeps expecting_input w = ground (
  arith,
  one_played-Keeps w,
  everyone_played-Keeps (handle_one_player_played w).1,
  timeout-Keeps (handle_everyone_played (handle_one_player_played w).1).1,
)
tick_in-Keeps over w = replay-Keeps w

-- A tick moves nobody.
pub tick-SameSeats : (w : RoomWorld) → SameSeats w.room (tick w).1.room
unfolding tick
tick-SameSeats w = ground (arith, tick_in-Keeps w.room.gameplay_state w)

-- A message of a player, other than that it leaves, changes neither the ids in the two slots of any
-- room, nor its configuration or address.
pub handle_player_message-SameSeats :
    (id : ℕ) (m : PlayerActionMessage) (w : RoomWorld)
    → m ≢ leave_game
    → SameSeats w.room (handle_player_message id m w).1.room
unfolding handle_player_message get_player_by_id
handle_player_message-SameSeats id leave_game w h = absurd (h refl)
handle_player_message-SameSeats id m w h = ground arith
