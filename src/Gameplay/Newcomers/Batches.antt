-- ===== src/Gameplay/Newcomers/Batches.antt =====
-- A dispatch that finds a new player, the message that it joins and one behind that.
use samurai_kirby_server.Prelude.{
  ℕ, String, ◌≡◌, refl, ap, ◌∙◌, sym, some, true, inl, inr, Option-cases, List, [], ◌∷◌, ◌++◌,
  arith,
}
use samurai_kirby_server.Exec.{ok, is_ok, Result}
use samurai_kirby_server.Player.{GameDifficulty}
use samurai_kirby_server.Messages.{join_game, set_ready_state, connect}
use samurai_kirby_server.Environment.{Environment, gameplay_callback}
use samurai_kirby_server.Room.State.{Room, RoomWorld}
use samurai_kirby_server.Room.Queries.{get_available_assignment}
use samurai_kirby_server.Room.Membership.{add_player, add_player_at}
use samurai_kirby_server.RoomManager
use samurai_kirby_server.RoomManager.{Lobby, Place, find_if, is_open_for, add_player_to_room}
use samurai_kirby_server.RoomManager.Places.{find_if-IsFirst}
use samurai_kirby_server.RoomManager.Outcomes.{
  at_place, opened, add_player_to_room-none, add_player_to_room-some,
}
use samurai_kirby_server.RoomManager.Soundness.{AreLive, found-IsLive, add_player_to_room-Preserves}
use samurai_kirby_server.Gameplay.{
  actions_of, set_actions, dispatch_actions, dispatch_messages, deliver, call_all, call,
}
use samurai_kirby_server.Gameplay.Subscriptions.{listeners, manager_subscription}
use samurai_kirby_server.Gameplay.Newcomers.{newcomer-Comes, OthersAreQuiet, actions_of-set_actions}

-- The rooms after a player has joined depend on the generator, and on nothing else around them.
add_player-room :
    (id : ℕ) (nickname : String) (w : RoomWorld) (e : Environment)
    → (add_player id nickname (record w { env = e })).1.room ≡ (add_player id nickname w).1.room
unfolding add_player add_player_at get_available_assignment
add_player-room id nickname w e = ground arith

opened-room :
    (d : GameDifficulty) (l : Lobby) (e : Environment)
    → e.random ≡ l.env.random
    → e.draws ≡ l.env.draws
    → (opened d (record l { env = e })).room ≡ (opened d l).room
opened-room d l e random draws = rw (random, draws) refl

joined-room :
    (id : ℕ) (nickname : String) (w v : RoomWorld)
    → w.room ≡ v.room
    → (add_player id nickname w).1.room ≡ (add_player id nickname v).1.room
joined-room id nickname w v same =
    ap (λ r. (add_player id nickname (record w { room = r })).1.room) same
    ∙ add_player-room id nickname v w.env

abbrev rooms_after : Result (Unit {0}) × Lobby → List Room
rooms_after o = o.1.rooms

add_player_to_room-rooms :
    (id : ℕ) (nickname : String) (d : GameDifficulty) (l : Lobby) (e : Environment)
    → AreLive l.rooms
    → e.random ≡ l.env.random
    → e.draws ≡ l.env.draws
    → (add_player_to_room id nickname d (record l { env = e })).1.rooms
      ≡ (add_player_to_room id nickname d l).1.rooms
add_player_to_room-rooms id nickname d l e a random draws =
    let k = record l { env = e } in
    elim (Option-cases (find_if (is_open_for d) l.rooms)) [
      | inl none_open ↦
          ap rooms_after (add_player_to_room-none id nickname d k none_open)
          ∙ ap (λ r. l.rooms ++ r ∷ [])
              (joined-room id nickname (opened d k) (opened d l) (opened-room d l e random draws))
          ∙ sym (ap rooms_after (add_player_to_room-none id nickname d l none_open))
      | inr (p, found) ↦
          let here = (found-IsLive p l.rooms (find_if-IsFirst _ l.rooms p found).split a).valid in
          ap rooms_after (add_player_to_room-some id nickname d k p found here)
          ∙ ap (λ r. p.before ++ r ∷ p.after)
              (joined-room id nickname (at_place p k) (at_place p l) refl)
          ∙ sym (ap rooms_after (add_player_to_room-some id nickname d l p found here))
    ]

batch-rooms :
    (id : ℕ) (nickname : String) (d : GameDifficulty) (l : Lobby)
    → listeners id l.env ≡ manager_subscription ∷ []
    → actions_of id l.env ≡ join_game nickname d ∷ set_ready_state true ∷ []
    → AreLive l.rooms
    → (is_ok (dispatch_actions (id ∷ []) l).0 ≡ true)
      × (actions_of id (dispatch_actions (id ∷ []) l).1.env ≡ [])
      × ((dispatch_actions (id ∷ []) l).1.rooms ≡ (add_player_to_room id nickname d l).1.rooms)
unfolding dispatch_actions deliver call_all call RoomManager.handle_player_message
batch-rooms id nickname d l listening waiting a =
    let queue = join_game nickname d ∷ set_ready_state true ∷ [] in
    let next = record l { env = set_actions id queue l.env } in
    let o = add_player_to_room id nickname d next in
    let read = set_actions id (set_ready_state true ∷ []) o.1.env in
    let done : dispatch_actions (id ∷ []) l ≡ (ok tt, record o.1 { env = set_actions id [] read }) =
      rw (listening, waiting)
        (rw (add_player_to_room-Preserves id nickname d next a).returned refl) in
    rw done (
      refl,
      actions_of-set_actions id id [] read ∙ ground arith,
      add_player_to_room-rooms id nickname d l (set_actions id queue l.env) a refl refl,
    )

-- Let the gameplay's callback be subscribed, the connection of a player wait in the hub, and as its
-- actions that it joins and then that it is ready; let the players that are listened to be others
-- and have no action waiting, and every room be valid and not empty. Then a dispatch throws nothing
-- and empties the player's queue, but the rooms are as if the player had only joined: the room that
-- it came to does not hear that it is ready.
pub ready_with_join_is_lost :
    (id : ℕ) (nickname : String) (d : GameDifficulty) (l : Lobby)
    → l.env.connectivity_callback ≡ some gameplay_callback
    → l.env.hub.player_connectivity_messages
      ≡ record { message_type = connect; player_id = id } ∷ []
    → actions_of id l.env ≡ join_game nickname d ∷ set_ready_state true ∷ []
    → OthersAreQuiet id l.env
    → AreLive l.rooms
    → (is_ok (dispatch_messages l).0 ≡ true)
      × (actions_of id (dispatch_messages l).1.env ≡ [])
      × ((dispatch_messages l).1.rooms ≡ (add_player_to_room id nickname d l).1.rooms)
ready_with_join_is_lost id nickname d l callback arrives waiting quiet a =
    let comes = newcomer-Comes id l callback arrives quiet in
    let after =
      batch-rooms id nickname d (record l { env = comes.env }) comes.listening
        (comes.actions ∙ waiting) a in
    rw comes.dispatched (
      after.0,
      after.1,
      after.2 ∙ add_player_to_room-rooms id nickname d l comes.env a comes.random comes.draws,
    )
