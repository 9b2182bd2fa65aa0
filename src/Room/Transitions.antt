-- ===== src/Room/Transitions.antt =====
-- The state machine of a room: which moves of `gameplayState` a tick and the other calls make.
use samurai_kirby_server.Prelude.{
  ℕ, suc, ◌≡◌, refl, ◌⊎◌, inr, Bool, true, false, arith, if◌then◌else◌,
}
use samurai_kirby_server.Messages.{PlayerActionMessage, leave_game, join_game}
use samurai_kirby_server.Room.Membership.{remove_player_at}
use samurai_kirby_server.Room.State.{
  broadcast_gameplay_message, RoomWorld, GameplayState, waiting_players, started, expecting_input,
  over,
}
use samurai_kirby_server.Room.Queries.{
  get_player_by_id, is_everyone_ready, everyone_wants_to_replay,
}
use samurai_kirby_server.Room.Ticks.{
  request_input, request_input_when_due, handle_everyone_ready, handle_everyone_can_play,
  handle_one_player_played, handle_everyone_played, handle_timeout, handle_replay, stamped, tick_in,
  tick,
}
use samurai_kirby_server.Room.Actions.{handle_player_message}

-- The moves of one tick. A room that has started can be over in the same tick in which the input
-- is asked for.
abbrev pub ticks_to : GameplayState → GameplayState → Bool
ticks_to waiting_players waiting_players = true
ticks_to waiting_players started = true
ticks_to started started = true
ticks_to started expecting_input = true
ticks_to started over = true
ticks_to expecting_input expecting_input = true
ticks_to expecting_input over = true
ticks_to over over = true
ticks_to over started = true
ticks_to _ _ = false

abbrev state_of : RoomWorld → GameplayState
state_of w = w.room.gameplay_state

request_input_state :
    (w : RoomWorld) → state_of w ≡ started → state_of (request_input w).1 ≡ expecting_input
unfolding request_input
request_input_state w h = ground arith

request_input_when_due_state :
    (w : RoomWorld)
    → state_of w ≡ started
    → (state_of (request_input_when_due w).1 ≡ started)
      ⊎ (state_of (request_input_when_due w).1 ≡ expecting_input)
unfolding request_input_when_due
request_input_when_due_state w h = ground (
  arith,
  request_input_state (record w { env = record w.env { readings = suc w.env.readings } }) h,
)

can_play_state :
    (w : RoomWorld)
    → state_of w ≡ started
    → (state_of (handle_everyone_can_play w).1 ≡ started)
      ⊎ (state_of (handle_everyone_can_play w).1 ≡ expecting_input)
unfolding handle_everyone_can_play
can_play_state w h =
    ground (arith, request_input_when_due_state w h, request_input_when_due_state (stamped w) h)

one_played_state :
    (w : RoomWorld)
    → (state_of w ≡ started) ⊎ (state_of w ≡ expecting_input)
    → (state_of (handle_one_player_played w).1 ≡ state_of w)
      ⊎ (state_of (handle_one_player_played w).1 ≡ over)
unfolding handle_one_player_played
one_played_state w h = ground arith

everyone_played_state :
    (w : RoomWorld)
    → (state_of (handle_everyone_played w).1 ≡ state_of w)
      ⊎ (state_of (handle_everyone_played w).1 ≡ over)
unfolding handle_everyone_played
everyone_played_state w = ground arith

timeout_state :
    (w : RoomWorld)
    → (state_of (handle_timeout w).1 ≡ state_of w) ⊎ (state_of (handle_timeout w).1 ≡ over)
unfolding handle_timeout
timeout_state w = ground arith

waiting_state :
    (w : RoomWorld)
    → state_of w ≡ waiting_players
    → state_of (handle_everyone_ready w).1
      ≡ (if is_everyone_ready w.room then started else waiting_players)
unfolding handle_everyone_ready
waiting_state w h = ground arith

over_state :
    (w : RoomWorld)
    → state_of w ≡ over
    → state_of (handle_replay w).1 ≡ (if everyone_wants_to_replay w.room then started else over)
unfolding handle_replay everyone_wants_to_replay
over_state w h = ground arith

tick_in_moves :
    (g : GameplayState) (w : RoomWorld)
    → state_of w ≡ g
    → ticks_to g (state_of (tick_in g w).1) ≡ true
unfolding tick_in
tick_in_moves waiting_players w h = ground (arith, waiting_state w h)
tick_in_moves started w h =
    ground (arith, can_play_state w h, one_played_state (handle_everyone_can_play w).1)
tick_in_moves expecting_input w h = ground (
  arith,
  one_played_state w (inr h),
  everyone_played_state (handle_one_player_played w).1,
  timeout_state (handle_everyone_played (handle_one_player_played w).1).1,
)
tick_in_moves over w h = ground (arith, over_state w h)

-- One tick moves the state of any room only along the edges of the state machine: from waiting to
-- started, from started to expecting an input or over, from expecting an input to over, from over
-- to started, or not at all.
pub tick_moves : (w : RoomWorld) → ticks_to (state_of w) (state_of (tick w).1) ≡ true
unfolding tick
tick_moves w = tick_in_moves w.room.gameplay_state w refl

-- A message of a player to any room leaves the state as it is, unless it is the message that the
-- player leaves, after which the room may also wait for players.
pub handle_player_message_state :
    (id : ℕ) (m : PlayerActionMessage) (w : RoomWorld)
    → (state_of (handle_player_message id m w).1 ≡ state_of w)
      ⊎ ((m ≡ leave_game) × (state_of (handle_player_message id m w).1 ≡ waiting_players))
unfolding handle_player_message get_player_by_id remove_player_at broadcast_gameplay_message
handle_player_message_state id (join_game _ _) w = ground arith
handle_player_message_state id m w = ground arith
