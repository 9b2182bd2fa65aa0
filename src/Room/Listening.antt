-- ===== src/Room/Listening.antt =====
-- What a call of a room for a player does to the map of callbacks: no key comes to it, unless it is
-- the player's.
use samurai_kirby_server.Prelude.{
  ℕ, ◌≢◌, refl, String, ◌≡◌, ap, ◌∙◌, inl, inr, true, Option-cases, arith, [],
}
use samurai_kirby_server.Prelude.UnorderedMap.{keys, has_key, keys-update}
use samurai_kirby_server.Messages.{PlayerActionMessage, leave_game}
use samurai_kirby_server.Environment.{
  Environment, publish_gameplay_message, unsubscribe_to_player_action_messages,
}
use samurai_kirby_server.Room.State.{RoomWorld, notify, broadcast_gameplay_message}
use samurai_kirby_server.Room.Queries.{get_available_assignment, get_player_by_id}
use samurai_kirby_server.Room.Membership.{add_player, remove_player, remove_player_at}
use samurai_kirby_server.Room.Actions.{handle_player_message}
use samurai_kirby_server.Room.Joining.{add_player-Joins}

-- If the player `id` has callbacks, the keys are the same.
abbrev pub SameKeys : ℕ → Environment → Environment → Type 0
SameKeys id e f = has_key id e.subscriptions ≡ true → keys f.subscriptions ≡ keys e.subscriptions

pub add_player-SameKeys :
    (id : ℕ) (nickname : String) (w : RoomWorld)
    → SameKeys id w.env (add_player id nickname w).1.env
unfolding add_player get_available_assignment
add_player-SameKeys id nickname w h = elim (Option-cases (get_available_assignment w.room)) [
  | inl e ↦ ground arith
  | inr (slot, e) ↦
      ap keys (add_player-Joins id nickname slot w e).subscribed
      ∙ keys-update [] id _ w.env.subscriptions h
]

pub remove_player-SameKeys : (id : ℕ) (w : RoomWorld) → SameKeys id w.env (remove_player id w).1.env
unfolding remove_player get_player_by_id remove_player_at unsubscribe_to_player_action_messages
    broadcast_gameplay_message notify publish_gameplay_message
remove_player-SameKeys id w h =
    ground (arith, keys-update [] id (λ stored. stored) w.env.subscriptions)

pub handle_player_message-SameKeys :
    (id : ℕ) (message : PlayerActionMessage) (w : RoomWorld)
    → SameKeys id w.env (handle_player_message id message w).1.env
unfolding handle_player_message get_player_by_id remove_player_at
    unsubscribe_to_player_action_messages broadcast_gameplay_message notify publish_gameplay_message
handle_player_message-SameKeys id message w h =
    ground (arith, keys-update [] id (λ stored. stored) w.env.subscriptions)

pub handle_player_message_subscriptions :
    (id : ℕ) (m : PlayerActionMessage) (w : RoomWorld)
    → m ≢ leave_game
    → (handle_player_message id m w).1.env.subscriptions ≡ w.env.subscriptions
unfolding handle_player_message get_player_by_id broadcast_gameplay_message notify
    publish_gameplay_message
handle_player_message_subscriptions id leave_game w h = absurd (h refl)
handle_player_message_subscriptions id m w h = ground arith
