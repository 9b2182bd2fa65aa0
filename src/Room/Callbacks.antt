-- ===== src/Room/Callbacks.antt =====
-- Which rooms' callbacks stay subscribed in the calls of a room: none is lost.
use samurai_kirby_server.Prelude.{
  ℕ, String, ◌≡◌, ap, ◌∙◌, inl, inr, Bool, true, false, ◌||◌, List, [], ◌∷◌, ◌++◌, ◌==◌,
  Option-cases, Bool-cases, arith,
}
use samurai_kirby_server.Prelude.UnorderedMap.{at, update, at-update}
use samurai_kirby_server.Messages.{PlayerActionMessage}
use samurai_kirby_server.Environment.{
  Environment, Subscription, PlayerActionCallback, manager_callback, room_callback,
  publish_gameplay_message, unsubscribe_to_player_action_messages,
}
use samurai_kirby_server.Room.State.{RoomWorld, notify, broadcast_gameplay_message}
use samurai_kirby_server.Room.Queries.{get_available_assignment, get_player_by_id}
use samurai_kirby_server.Room.Membership.{add_player, remove_player, remove_player_at}
use samurai_kirby_server.Room.Actions.{handle_player_message}
use samurai_kirby_server.Room.Joining.{add_player-Joins}

-- The callback is that of the room at the address `a`.
abbrev pub leads_to : ℕ → PlayerActionCallback → Bool
leads_to a manager_callback = false
leads_to a (room_callback b) = b == a

abbrev pub has_callback : ℕ → List Subscription → Bool
has_callback a [] = false
has_callback a (s ∷ rest) = leads_to a s.callback || has_callback a rest

-- The callback of a room that is subscribed for a player still is.
abbrev pub IsStill : Environment → Environment → Type 0
IsStill e f =
    (j a : ℕ)
    → has_callback a (at [] j e.subscriptions) ≡ true
    → has_callback a (at [] j f.subscriptions) ≡ true

has_callback-append :
    (a : ℕ) (cs : List Subscription) (s : Subscription)
    → has_callback a cs ≡ true
    → has_callback a (cs ++ s ∷ []) ≡ true
has_callback-append a [] s h = ground (arith, h)
has_callback-append a (c ∷ cs) s h = ground (arith, has_callback-append a cs s)

at-same : (id j : ℕ) (m : List (ℕ × List Subscription)) → (id == j) ≡ true → at [] id m ≡ at [] j m
at-same id j m h = ground arith

update-has_callback :
    (id : ℕ) (s : Subscription) (m : List (ℕ × List Subscription)) (j a : ℕ)
    → has_callback a (at [] j m) ≡ true
    → has_callback a (at [] j (update [] id (λ cs. cs ++ s ∷ []) m)) ≡ true
update-has_callback id s m j a h =
    ap (has_callback a) (at-update [] id j (λ cs. cs ++ s ∷ []) m) ∙ elim (Bool-cases (id == j)) [
      | inl e ↦
          rw e (has_callback-append a (at [] id m) s (ap (has_callback a) (at-same id j m e) ∙ h))
      | inr e ↦ rw e h
    ]

stored-same :
    (id j : ℕ) (m : List (ℕ × List Subscription))
    → at [] j (update [] id (λ stored. stored) m) ≡ at [] j m
stored-same id j m =
    ground (arith, at-update [] id j (λ (stored : List Subscription). stored) m, at-same id j m)

pub add_player-IsStill :
    (id : ℕ) (nickname : String) (w : RoomWorld) → IsStill w.env (add_player id nickname w).1.env
unfolding add_player get_available_assignment
add_player-IsStill id nickname w j a h = elim (Option-cases (get_available_assignment w.room)) [
  | inl e ↦ rw e h
  | inr (slot, e) ↦
      ap (λ m. has_callback a (at [] j m)) (add_player-Joins id nickname slot w e).subscribed
      ∙ update-has_callback id _ w.env.subscriptions j a h
]

remove_player_listeners :
    (id j : ℕ) (w : RoomWorld)
    → at [] j (remove_player id w).1.env.subscriptions ≡ at [] j w.env.subscriptions
unfolding remove_player get_player_by_id remove_player_at unsubscribe_to_player_action_messages
    broadcast_gameplay_message notify publish_gameplay_message
remove_player_listeners id j w = ground (arith, stored-same id j w.env.subscriptions)

pub remove_player-IsStill : (id : ℕ) (w : RoomWorld) → IsStill w.env (remove_player id w).1.env
remove_player-IsStill id w j a h = ap (has_callback a) (remove_player_listeners id j w) ∙ h

message_listeners :
    (id j : ℕ) (message : PlayerActionMessage) (w : RoomWorld)
    → at [] j (handle_player_message id message w).1.env.subscriptions ≡ at [] j w.env.subscriptions
unfolding handle_player_message get_player_by_id remove_player_at
    unsubscribe_to_player_action_messages broadcast_gameplay_message notify publish_gameplay_message
message_listeners id j message w = ground (arith, stored-same id j w.env.subscriptions)

pub handle_player_message-IsStill :
    (id : ℕ) (message : PlayerActionMessage) (w : RoomWorld)
    → IsStill w.env (handle_player_message id message w).1.env
handle_player_message-IsStill id message w j a h =
    ap (has_callback a) (message_listeners id j message w) ∙ h
