-- ===== src/Gameplay/Subscriptions.antt =====
-- What unsubscribing does, and what comes of it.
use samurai_kirby_server.Prelude.{
  Bool, ℕ, ◌≡◌, refl, none, some, true, false, List, [], ◌∷◌, ◌++◌, ◌==◌, All, arith,
}
use samurai_kirby_server.Prelude.UnorderedMap
use samurai_kirby_server.Exec.{err, undefined_behaviour}
use samurai_kirby_server.Player.{PlayerAssignment, p1, p2}
use samurai_kirby_server.Messages.{leave_game}
use samurai_kirby_server.Environment.{
  Environment, Context, gameplay, room_at, manager_callback, room_callback, Subscription,
  unsubscribe_to_player_action_messages,
}
use samurai_kirby_server.Room.State.{RoomWorld, Room, players}
use samurai_kirby_server.Room.Queries.{is_empty, has_player_with_id, get_player_by_id}
use samurai_kirby_server.Room.Ticks.{other}
use samurai_kirby_server.Room.Validity.{IsValid}
use samurai_kirby_server.Room.Leaving.{Leaves, remove_player-Leaves}
use samurai_kirby_server.RoomManager
use samurai_kirby_server.RoomManager.{Lobby, Place, find_if, remove_player_from_room}
use samurai_kirby_server.RoomManager.Outcomes.{at_place, remove_player_from_room-some}
use samurai_kirby_server.Gameplay.{call, call_all}

-- The callbacks that are subscribed to the actions of a player.
abbrev pub listeners : ℕ → Environment → List Subscription
listeners id e = UnorderedMap.at [] id e.subscriptions

same_key :
    (id j : ℕ) (m : List (ℕ × List Subscription))
    → (id == j) ≡ true
    → UnorderedMap.at [] id m ≡ UnorderedMap.at [] j m
same_key id j m h = ground arith

-- Unsubscribing a context from the actions of a player leaves the callbacks of every player as they
-- were, those of that context included.
pub unsubscribe-listeners :
    (id j : ℕ) (context : Context) (e : Environment)
    → listeners j (unsubscribe_to_player_action_messages id context e) ≡ listeners j e
unfolding unsubscribe_to_player_action_messages
unsubscribe-listeners id j context e = ground (
  arith,
  UnorderedMap.at-update [] id j (λ stored. stored) e.subscriptions,
  same_key id j e.subscriptions,
)

abbrev pub manager_subscription : Subscription
manager_subscription = record { context = gameplay; callback = manager_callback }

abbrev pub room_subscription : ℕ → Subscription
room_subscription address = record { context = room_at address; callback = room_callback address }

find_if-of-none :
    (test : Room → Bool) (rooms : List Room)
    → All (λ r. test r ≡ false) rooms
    → find_if test rooms ≡ none
unfolding find_if
find_if-of-none test [] h = refl
find_if-of-none test (r ∷ rest) h = ground (arith, h.0, find_if-of-none test rest h.1)

Leaves-is_empty :
    (id : ℕ) (slot : PlayerAssignment) (w v : RoomWorld)
    → players w.room (other slot) ≡ none
    → Leaves id slot w v
    → is_empty v.room ≡ true
unfolding is_empty
Leaves-is_empty id p1 w v h l = ground (arith, l.seat, l.other_seat)
Leaves-is_empty id p2 w v h l = ground (arith, l.seat, l.other_seat)

-- Let a room be the first that has the player, be valid and hold nobody else, let no other room
-- have its address, and let the manager and the room be subscribed to the player's actions, in this
-- order. If the player sends that it leaves, the callbacks end in undefined behaviour: the manager
-- destroys the room, and then the room's callback is called.
pub last_leave_is_undefined :
    (id : ℕ) (slot : PlayerAssignment) (l : Lobby) (p : Place)
    → find_if (has_player_with_id id) l.rooms ≡ some p
    → IsValid p.room
    → get_player_by_id id p.room ≡ some slot
    → players p.room (other slot) ≡ none
    → All (λ r. (r.address == p.room.address) ≡ false) (p.before ++ p.after)
    → (call_all (manager_subscription ∷ room_subscription p.room.address ∷ []) id leave_game l).0
      ≡ err undefined_behaviour
unfolding call_all call RoomManager.handle_player_message
last_leave_is_undefined id slot l p found v here alone addresses = ground (
  arith,
  Leaves-is_empty id slot (at_place p l) _ alone
      (remove_player-Leaves id slot (at_place p l) v here),
  remove_player_from_room-some id l p found v,
  find_if-of-none _ (p.before ++ p.after) addresses,
)
