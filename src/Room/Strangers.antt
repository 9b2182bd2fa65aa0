-- ===== src/Room/Strangers.antt =====
-- What the calls of Room.cpp mean for an id that sits in neither slot: nothing is sent to it, no
-- callback is subscribed for it, and it does not come to sit there.
use mathlib.Core.List.{append-nil}
use samurai_kirby_server.Prelude.UnorderedMap
use samurai_kirby_server.Prelude.{
  List, ◌∷◌, ◌++◌, inl, inr, Option-cases, ℕ, String, ◌≡◌, refl, ap, ◌∙◌, ◌==◌, false, arith, [],
  if◌then◌else◌, ◌≢◌,
}
use samurai_kirby_server.Prelude.UnorderedMap.{has_key, has_key-update, at-update}
use samurai_kirby_server.Player.{PlayerAssignment, p1, p2, reset_to_replay}
use samurai_kirby_server.Messages.{
  GameplayMessage, PlayerActionMessage, leave_game, join_game, set_ready_state, notify_can_play,
  player_input, set_replay_ready_state,
}
use samurai_kirby_server.Environment.{
  get_time_now, publish_gameplay_message, unsubscribe_to_player_action_messages,
}
use samurai_kirby_server.Room.Outsiders.{IsAbsent, SameMail, broadcast-mail, tick_in-mail}
use samurai_kirby_server.Room.Ticks.{other, tick}
use samurai_kirby_server.Room.State.{players, RoomWorld, notify, broadcast_gameplay_message}
use samurai_kirby_server.Room.Queries.{get_available_assignment, get_player_by_id}
use samurai_kirby_server.Room.Seats.{Joins-room_seats, tick-room_seats}
use samurai_kirby_server.Room.Joining.{add_player-Joins}
use samurai_kirby_server.Room.Mailbox.{mailbox, copy_for}
use samurai_kirby_server.Room.Input.{tick-subscriptions}
use samurai_kirby_server.Room.Frame.{handle_player_message-SameSeats}
use samurai_kirby_server.Room.Listening.{handle_player_message_subscriptions}
use samurai_kirby_server.Room.Membership.{add_player, remove_player, remove_player_at}
use samurai_kirby_server.Room.Actions.{
  handle_player_message, dispatch_action, handle_player_set_ready_state_message,
  handle_player_notify_can_play_message, handle_player_input_message,
  handle_player_set_replay_ready_state_message, handle_player_leave_game_message,
}

-- What a call leaves to somebody who is not in the room.
pub record IsStrangerTo (j : ℕ) (w v : RoomWorld) : Type 0 where
  pub absent : IsAbsent j v.room
  pub mail : mailbox j v.env ≡ mailbox j w.env
  pub heard : has_key j v.env.subscriptions ≡ has_key j w.env.subscriptions

pub tick-IsStrangerTo : (j : ℕ) (w : RoomWorld) → IsAbsent j w.room → IsStrangerTo j w (tick w).1
unfolding tick
tick-IsStrangerTo j w h = record {
  absent = tick-room_seats w j ∙ h;
  mail = tick_in-mail j w.room.gameplay_state w h;
  heard = ap (has_key j) (tick-subscriptions w);
}

pub update-heard :
    {A : Type 0} (j id : ℕ) (f : List A → List A) (m : List (ℕ × List A))
    → (id == j) ≡ false
    → has_key j (UnorderedMap.update [] id f m) ≡ has_key j m
update-heard j id f m o = has_key-update [] id j f m ∙ ground arith

unchanged : (j : ℕ) (w : RoomWorld) → IsAbsent j w.room → IsStrangerTo j w w
unchanged j w h = record { absent = h; mail = refl; heard = refl }

-- Of the mail of `addPlayer`, nothing is for `j`.
nobody_told :
    (j id : ℕ) (slot : PlayerAssignment) (w : RoomWorld) (r m : GameplayMessage)
    → (id == j) ≡ false
    → IsAbsent j w.room
    → (mailbox j w.env ++ (if id == j then r ∷ [] else []))
        ++ copy_for j (players w.room (other slot)) m
      ≡ mailbox j w.env
nobody_told j id p1 w r m o h = ground (arith, append-nil (mailbox j w.env))
nobody_told j id p2 w r m o h = ground (arith, append-nil (mailbox j w.env))

pub add_player-IsStrangerTo :
    (j id : ℕ) (nickname : String) (w : RoomWorld)
    → (id == j) ≡ false
    → IsAbsent j w.room
    → IsStrangerTo j w (add_player id nickname w).1
unfolding add_player
add_player-IsStrangerTo j id nickname w o h =
    elim (Option-cases (get_available_assignment w.room)) [
      | inl e ↦ rw e (unchanged j w h)
      | inr (slot, e) ↦
          let joins = add_player-Joins id nickname slot w e in
          record {
            absent = Joins-room_seats id nickname slot w _ j e joins ∙ ground arith;
            mail = joins.mail j ∙ nobody_told j id slot w _ _ o h;
            heard = ap (has_key j) joins.subscribed ∙ update-heard j id _ w.env.subscriptions o;
          }
    ]

remove_player_at-IsAbsent :
    (j : ℕ) (slot : PlayerAssignment) (w : RoomWorld)
    → IsAbsent j w.room
    → IsAbsent j (remove_player_at slot w).1.room
unfolding remove_player_at broadcast_gameplay_message reset_to_replay
remove_player_at-IsAbsent j p1 w h = ground arith
remove_player_at-IsAbsent j p2 w h = ground arith

remove_player_at-mail :
    (j : ℕ) (slot : PlayerAssignment) (w : RoomWorld)
    → IsAbsent j w.room
    → SameMail j w (remove_player_at slot w).1
unfolding remove_player_at unsubscribe_to_player_action_messages reset_to_replay
remove_player_at-mail j p1 w h = grind (arith, broadcast-mail)
remove_player_at-mail j p2 w h = grind (arith, broadcast-mail)

remove_player_at-heard :
    (j : ℕ) (slot : PlayerAssignment) (w : RoomWorld)
    → IsAbsent j w.room
    → has_key j (remove_player_at slot w).1.env.subscriptions ≡ has_key j w.env.subscriptions
unfolding remove_player_at unsubscribe_to_player_action_messages reset_to_replay
    broadcast_gameplay_message notify publish_gameplay_message
remove_player_at-heard j p1 w h = grind (arith, update-heard)
remove_player_at-heard j p2 w h = grind (arith, update-heard)

pub remove_player-IsStrangerTo :
    (j id : ℕ) (w : RoomWorld) → IsAbsent j w.room → IsStrangerTo j w (remove_player id w).1
unfolding remove_player
remove_player-IsStrangerTo j id w h = elim (Option-cases (get_player_by_id id w.room)) [
  | inl e ↦ rw e (unchanged j w h)
  | inr (slot, e) ↦ rw e (record {
    absent = remove_player_at-IsAbsent j slot w h;
    mail = remove_player_at-mail j slot w h;
    heard = remove_player_at-heard j slot w h;
  })
]

dispatch_action-mail :
    (j : ℕ) (message : PlayerActionMessage) (slot : PlayerAssignment) (w : RoomWorld)
    → message ≢ leave_game
    → IsAbsent j w.room
    → SameMail j w (dispatch_action message slot w).1
unfolding dispatch_action handle_player_set_ready_state_message
    handle_player_notify_can_play_message handle_player_input_message
    handle_player_set_replay_ready_state_message get_time_now
dispatch_action-mail j leave_game slot w stays h = absurd (stays refl)
dispatch_action-mail j m p1 w stays h = grind (arith, broadcast-mail)
dispatch_action-mail j m p2 w stays h = grind (arith, broadcast-mail)

leaves-IsStrangerTo :
    (j : ℕ) (slot : PlayerAssignment) (w : RoomWorld)
    → IsAbsent j w.room
    → IsStrangerTo j w (handle_player_leave_game_message slot w).1
unfolding handle_player_leave_game_message
leaves-IsStrangerTo j slot w h = elim (Option-cases (players w.room slot)) [
  | inl e ↦ rw e (unchanged j w h)
  | inr (p, e) ↦ rw e (remove_player-IsStrangerTo j p.id w h)
]

stays-mail :
    (j id : ℕ) (message : PlayerActionMessage) (w : RoomWorld)
    → message ≢ leave_game
    → IsAbsent j w.room
    → SameMail j w (handle_player_message id message w).1
unfolding handle_player_message
stays-mail j id message w stays h = elim (Option-cases (get_player_by_id id w.room)) [
  | inl e ↦ rw e refl
  | inr (slot, e) ↦ rw e (dispatch_action-mail j message slot w stays h)
]

stays-IsStrangerTo :
    (j id : ℕ) (message : PlayerActionMessage) (w : RoomWorld)
    → message ≢ leave_game
    → IsAbsent j w.room
    → IsStrangerTo j w (handle_player_message id message w).1
stays-IsStrangerTo j id message w stays h = record {
  absent = ground (arith, handle_player_message-SameSeats id message w stays);
  mail = stays-mail j id message w stays h;
  heard = ap (has_key j) (handle_player_message_subscriptions id message w stays);
}

leave_game-IsStrangerTo :
    (j id : ℕ) (w : RoomWorld)
    → IsAbsent j w.room
    → IsStrangerTo j w (handle_player_message id leave_game w).1
unfolding handle_player_message dispatch_action
leave_game-IsStrangerTo j id w h = elim (Option-cases (get_player_by_id id w.room)) [
  | inl e ↦ rw e (unchanged j w h)
  | inr (slot, e) ↦ rw e (leaves-IsStrangerTo j slot w h)
]

pub handle_player_message-IsStrangerTo :
    (j id : ℕ) (message : PlayerActionMessage) (w : RoomWorld)
    → IsAbsent j w.room
    → IsStrangerTo j w (handle_player_message id message w).1
handle_player_message-IsStrangerTo j id leave_game w h = leave_game-IsStrangerTo j id w h
handle_player_message-IsStrangerTo j id (join_game n d) w h =
    stays-IsStrangerTo j id (join_game n d) w (λ e. cc) h
handle_player_message-IsStrangerTo j id (set_ready_state b) w h =
    stays-IsStrangerTo j id (set_ready_state b) w (λ e. cc) h
handle_player_message-IsStrangerTo j id notify_can_play w h =
    stays-IsStrangerTo j id notify_can_play w (λ e. cc) h
handle_player_message-IsStrangerTo j id (player_input i t) w h =
    stays-IsStrangerTo j id (player_input i t) w (λ e. cc) h
handle_player_message-IsStrangerTo j id (set_replay_ready_state b) w h =
    stays-IsStrangerTo j id (set_replay_ready_state b) w (λ e. cc) h
