-- ===== src/Room/Joining.antt =====
-- Who sits in a room after Room::addPlayer, and who hears of it.
use samurai_kirby_server.Prelude.{
  ℕ, String, ◌≡◌, refl, ap, ◌∙◌, Option, none, some, true, arith, if◌then◌else◌, [], ◌∷◌, ◌++◌,
  ◌==◌,
}
use samurai_kirby_server.Prelude.UnorderedMap
use samurai_kirby_server.Exec.{ok}
use samurai_kirby_server.Player.{
  PlayerLobbyDto, PlayerAssignment, p1, p2, Player, new_player, build_lobby_dto,
}
use samurai_kirby_server.Messages.{GameplayMessage, room_joined, player_joined_room}
use samurai_kirby_server.Environment.{
  Environment, Context, PlayerActionCallback, room_at, room_callback, publish_gameplay_message,
  subscribe_to_player_action_messages,
}
use samurai_kirby_server.Room.State.{RoomWorld, players, notify}
use samurai_kirby_server.Room.Queries.{is_full, get_available_assignment}
use samurai_kirby_server.Room.Ticks.{other}
use samurai_kirby_server.Room.Membership.{add_player_at, add_player}
use samurai_kirby_server.Room.Mailbox.{mailbox, copy_for, mailbox-publish, mailbox-notify}

-- A full room takes nobody: nothing changes and nobody is told.
pub add_player-full :
    (id : ℕ) (nickname : String) (w : RoomWorld)
    → is_full w.room ≡ true
    → add_player id nickname w ≡ (ok tt, w)
unfolding add_player get_available_assignment is_full
add_player-full id nickname w h = ground arith

abbrev lobby_of : Option Player → Option PlayerLobbyDto
lobby_of none = none
lobby_of (some p) = some (build_lobby_dto p)

-- A player that is taken in.
pub record Joins (id : ℕ) (nickname : String) (slot : PlayerAssignment) (before after : RoomWorld)
    : Type 0 where
  pub seat : players after.room slot ≡ some (new_player id nickname slot)
  pub other_seat : players after.room (other slot) ≡ players before.room (other slot)
  pub same_state : after.room.gameplay_state ≡ before.room.gameplay_state
  pub mail :
      (j : ℕ)
      → mailbox j after.env
        ≡ (mailbox j before.env
            ++ (if id == j
                then room_joined slot (lobby_of (players before.room (other slot))) ∷ []
                else []))
          ++ copy_for j
              (players before.room (other slot))
              (player_joined_room (build_lobby_dto (new_player id nickname slot)))
  pub subscribed :
      after.env.subscriptions
      ≡ UnorderedMap.update [] id
          (λ callbacks.
            callbacks
            ++ record {
              context = room_at before.room.address;
              callback = room_callback before.room.address;
            }
              ∷ [])
          before.env.subscriptions

-- The effect of addPlayer on the broker: the newcomer's message, the other's, the subscription.
module _ (id : ℕ) (callback : PlayerActionCallback) (context : Context) (o : Option Player)
    (r m : GameplayMessage) (e : Environment) where
  welcomed : Environment
  welcomed =
      subscribe_to_player_action_messages id callback context
        (notify o m (publish_gameplay_message id r e))

  mailbox-welcomed :
      (j : ℕ)
      → mailbox j welcomed ≡ (mailbox j e ++ (if id == j then r ∷ [] else [])) ++ copy_for j o m
  unfolding welcomed subscribe_to_player_action_messages
  mailbox-welcomed j =
      mailbox-notify j o m (publish_gameplay_message id r e)
      ∙ ap (λ q. q ++ copy_for j o m) (mailbox-publish j id r e)

  subscriptions-welcomed :
      welcomed.subscriptions
      ≡ UnorderedMap.update [] id
          (λ callbacks. callbacks ++ record { context = context; callback = callback } ∷ [])
          e.subscriptions
  unfolding welcomed subscribe_to_player_action_messages notify publish_gameplay_message
  subscriptions-welcomed = ground arith

add_player_at-Joins :
    (id : ℕ) (nickname : String) (slot : PlayerAssignment) (w : RoomWorld)
    → Joins id nickname slot w (add_player_at id nickname slot w).1
unfolding add_player_at welcomed
add_player_at-Joins id nickname p1 w = record {
  seat = refl;
  other_seat = refl;
  same_state = refl;
  mail = mailbox-welcomed id _ _ w.room.player2 _ _ w.env;
  subscribed = subscriptions-welcomed id _ _ w.room.player2 _ _ w.env;
}
add_player_at-Joins id nickname p2 w = record {
  seat = refl;
  other_seat = refl;
  same_state = refl;
  mail = mailbox-welcomed id _ _ w.room.player1 _ _ w.env;
  subscribed = subscriptions-welcomed id _ _ w.room.player1 _ _ w.env;
}

add_player-eq-add_player_at :
    (id : ℕ) (nickname : String) (slot : PlayerAssignment) (w : RoomWorld)
    → get_available_assignment w.room ≡ some slot
    → add_player id nickname w ≡ add_player_at id nickname slot w
unfolding add_player
add_player-eq-add_player_at id nickname slot w h = ground arith

-- A room with a free slot seats a player in the first free one, as a new player, and leaves the
-- other slot and the state alone. The newcomer is told its slot and who else is there, the other
-- player is told of the newcomer, and no other queue changes. The room's callback is subscribed to
-- the newcomer's actions, behind those that were there.
pub add_player-Joins :
    (id : ℕ) (nickname : String) (slot : PlayerAssignment) (w : RoomWorld)
    → get_available_assignment w.room ≡ some slot
    → Joins id nickname slot w (add_player id nickname w).1
add_player-Joins id nickname slot w h =
    rw (add_player-eq-add_player_at id nickname slot w h) (add_player_at-Joins id nickname slot w)
