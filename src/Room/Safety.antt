-- ===== src/Room/Safety.antt =====
-- No method of a room throws: each `value()` in gameplay/Room/Room.cpp finds a value.
use samurai_kirby_server.Prelude.{subst, sym, ◌≤◌, ℕ, suc, true, has_value, String, ◌≡◌, ◌∙◌, arith}
use samurai_kirby_server.Exec.{Exec, is_ok, ◌>>◌}
use samurai_kirby_server.Player.{p1, p2, GameDifficulty}
use samurai_kirby_server.Messages.{PlayerActionMessage, join_game}
use samurai_kirby_server.Environment.{
  Environment, publish_gameplay_message, subscribe_to_player_action_messages,
  unsubscribe_to_player_action_messages,
}
use samurai_kirby_server.Room.State.{
  new_room, RoomConfig, broadcast_gameplay_message, notify, RoomWorld, waiting_players, started,
  expecting_input, over, GameplayState,
}
use samurai_kirby_server.Room.Queries.{get_available_assignment, get_player_by_id, is_full}
use samurai_kirby_server.Room.Ticks.{
  stamped, request_input, request_input_when_due, get_random_gameplay_input, handle_everyone_ready,
  handle_everyone_can_play, handle_one_player_played, handle_everyone_played, handle_timeout,
  handle_replay, tick_in, tick,
}
use samurai_kirby_server.Room.Membership.{
  add_player_at, remove_player_at, add_player, remove_player,
}
use samurai_kirby_server.Room.Actions.{handle_player_message}
use samurai_kirby_server.Room.Validity.{IsSeated, IsValid, DrawsInRange, Succeeds}

pub new_room-IsValid : (address : ℕ) (config : RoomConfig) → IsValid (new_room address config)
unfolding new_room
new_room-IsValid address config = ground arith

pub same_random-DrawsInRange :
    (e e' : Environment) → e'.random ≡ e.random → DrawsInRange e → DrawsInRange e'
same_random-DrawsInRange e e' same h =
    subst (λ r. (n a b : ℕ) → a ≤ b → (a ≤ r n a b) × (r n a b ≤ b)) (sym same) h

Succeeds-then :
    (m k : Exec RoomWorld (Unit {0})) (w : RoomWorld)
    → Succeeds m w
    → Succeeds k (m w).1
    → Succeeds (m >> k) w
Succeeds-then m k w a b = record {
  returned = rw a.returned b.returned;
  valid = rw a.returned b.valid;
  same_random = rw a.returned (b.same_random ∙ a.same_random);
}

handle_everyone_ready-Succeeds : (w : RoomWorld) → IsValid w.room → Succeeds handle_everyone_ready w
unfolding handle_everyone_ready is_full notify publish_gameplay_message
handle_everyone_ready-Succeeds w v = ground arith

get_random_gameplay_input_returns :
    (d : GameDifficulty) (e : Environment)
    → DrawsInRange e
    → (is_ok (get_random_gameplay_input d e).0 ≡ true)
      × ((get_random_gameplay_input d e).1.random ≡ e.random)
unfolding get_random_gameplay_input
get_random_gameplay_input_returns d e h = ground (arith, h e.draws 0 1, h e.draws 0 3)

request_input-Succeeds :
    (w : RoomWorld)
    → DrawsInRange w.env
    → is_full w.room ≡ true
    → IsSeated p1 w.room.player1
    → IsSeated p2 w.room.player2
    → Succeeds request_input w
unfolding request_input is_full notify publish_gameplay_message
request_input-Succeeds w h f a b = ground (
  arith,
  get_random_gameplay_input_returns w.room.config.difficulty
      (record w.env { readings = suc w.env.readings }) h,
)

request_input_when_due-Succeeds :
    (w : RoomWorld)
    → DrawsInRange w.env
    → IsValid w.room
    → is_full w.room ≡ true
    → has_value w.room.everyone_can_play_at ≡ true
    → Succeeds request_input_when_due w
unfolding request_input_when_due is_full
request_input_when_due-Succeeds w h v f p = ground (
  arith,
  request_input-Succeeds (record w { env = record w.env { readings = suc w.env.readings } }) h,
)

handle_everyone_can_play-Succeeds :
    (w : RoomWorld) → DrawsInRange w.env → IsValid w.room → Succeeds handle_everyone_can_play w
unfolding handle_everyone_can_play is_full
handle_everyone_can_play-Succeeds w h v =
    ground
      (arith, request_input_when_due-Succeeds w h v, request_input_when_due-Succeeds (stamped w) h)

handle_one_player_played-Succeeds :
    (w : RoomWorld) → IsValid w.room → Succeeds handle_one_player_played w
unfolding handle_one_player_played is_full notify publish_gameplay_message
handle_one_player_played-Succeeds w v = ground arith

handle_everyone_played-Succeeds :
    (w : RoomWorld) → IsValid w.room → Succeeds handle_everyone_played w
unfolding handle_everyone_played is_full notify publish_gameplay_message
handle_everyone_played-Succeeds w v = ground arith

handle_timeout-Succeeds : (w : RoomWorld) → IsValid w.room → Succeeds handle_timeout w
unfolding handle_timeout is_full notify publish_gameplay_message
handle_timeout-Succeeds w v = ground arith

handle_replay-Succeeds : (w : RoomWorld) → IsValid w.room → Succeeds handle_replay w
unfolding handle_replay is_full notify publish_gameplay_message
handle_replay-Succeeds w v = ground arith

pub add_player-Succeeds :
    (id : ℕ) (nickname : String) (w : RoomWorld)
    → IsValid w.room
    → Succeeds (add_player id nickname) w
unfolding add_player get_available_assignment add_player_at subscribe_to_player_action_messages
    is_full notify publish_gameplay_message
add_player-Succeeds id nickname w v = ground arith

pub remove_player-Succeeds :
    (id : ℕ) (w : RoomWorld) → IsValid w.room → Succeeds (remove_player id) w
unfolding remove_player get_player_by_id remove_player_at unsubscribe_to_player_action_messages
    broadcast_gameplay_message is_full notify publish_gameplay_message
remove_player-Succeeds id w v = ground arith

pub handle_player_message-Succeeds :
    (id : ℕ) (message : PlayerActionMessage) (w : RoomWorld)
    → IsValid w.room
    → Succeeds (handle_player_message id message) w
unfolding handle_player_message get_player_by_id remove_player_at
    unsubscribe_to_player_action_messages broadcast_gameplay_message is_full notify
    publish_gameplay_message
handle_player_message-Succeeds id (join_game _ _) w v = ground arith
handle_player_message-Succeeds id message w v = ground arith

tick_in-Succeeds :
    (g : GameplayState) (w : RoomWorld)
    → DrawsInRange w.env
    → IsValid w.room
    → Succeeds (tick_in g) w
unfolding tick_in
tick_in-Succeeds waiting_players w h v = handle_everyone_ready-Succeeds w v
tick_in-Succeeds started w h v =
    let first = handle_everyone_can_play-Succeeds w h v in
    Succeeds-then _ _ w first (handle_one_player_played-Succeeds _ first.valid)
tick_in-Succeeds expecting_input w h v =
    let first = handle_one_player_played-Succeeds w v in
    let second = handle_everyone_played-Succeeds _ first.valid in
    Succeeds-then _ _ w first (Succeeds-then _ _ _ second (handle_timeout-Succeeds _ second.valid))
tick_in-Succeeds over w h v = handle_replay-Succeeds w v

pub tick-Succeeds : (w : RoomWorld) → DrawsInRange w.env → IsValid w.room → Succeeds tick w
unfolding tick
tick-Succeeds w h v = record {
  returned = inner.returned;
  valid = inner.valid;
  same_random = inner.same_random;
}
  where
    inner : Succeeds (tick_in w.room.gameplay_state) w
    inner = tick_in-Succeeds w.room.gameplay_state w h v
