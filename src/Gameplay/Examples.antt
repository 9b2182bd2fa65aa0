-- ===== src/Gameplay/Examples.antt =====
-- The theorems on the broker at a concrete lobby.
use samurai_kirby_server.Prelude.{◌≡◌, refl, [], ◌∷◌, true, arith, some, none}
use samurai_kirby_server.Exec.{err, undefined_behaviour}
use samurai_kirby_server.Player.{easy, p1}
use samurai_kirby_server.Messages.{join_game, set_ready_state, leave_game, notify_can_play, connect}
use samurai_kirby_server.Environment.{
  gameplay_callback, gameplay, unsubscribe_to_player_action_messages,
}
use samurai_kirby_server.Room.State.{waiting_players, started}
use samurai_kirby_server.Room.Queries.{has_player_with_id, get_player_by_id, is_full}
use samurai_kirby_server.Room.Fixtures.{calm, alice, bob, room_of}
use samurai_kirby_server.RoomManager.{Lobby, add_player_to_room, find_if}
use samurai_kirby_server.RoomManager.Fixtures.{evening, evening-AreLive}
use samurai_kirby_server.Gameplay.{call_all, dispatch_messages}
use samurai_kirby_server.RoomManager.Validity.{AreValid}
use samurai_kirby_server.Gameplay.Dispatch.{
  after_connections, Dispatches, dispatch_messages-Dispatches,
}
use samurai_kirby_server.Exec.{ended}
use samurai_kirby_server.Gameplay.Loops.{dispatch_loops}
use samurai_kirby_server.Gameplay.Termination.{AreShort, dispatch_loops-ended}
use samurai_kirby_server.Prelude.UnorderedMap.{at, keys}
use samurai_kirby_server.Gameplay.Newcomers.{OthersAreQuiet}
use samurai_kirby_server.Gameplay.Newcomers.Batches.{ready_with_join_is_lost}
use samurai_kirby_server.Exec.{is_ok}
use samurai_kirby_server.Gameplay.{actions_of, dispatch_actions}
use samurai_kirby_server.Gameplay.Subscriptions.{
  listeners, manager_subscription, room_subscription, unsubscribe-listeners,
  last_leave_is_undefined,
}

unsubscribe-listeners_example :
    listeners 3 (
      unsubscribe_to_player_action_messages 3 gameplay
        (record calm { subscriptions = (3, manager_subscription ∷ []) ∷ [] }))
    ≡ listeners 3 (record calm { subscriptions = (3, manager_subscription ∷ []) ∷ [] })
unsubscribe-listeners_example =
    unsubscribe-listeners 3 3 gameplay
      (record calm { subscriptions = (3, manager_subscription ∷ []) ∷ [] })

last_leave_is_undefined_example :
    (call_all (manager_subscription ∷ room_subscription 1 ∷ []) 3 leave_game evening).0
    ≡ err undefined_behaviour
unfolding find_if has_player_with_id get_player_by_id is_full
last_leave_is_undefined_example =
    last_leave_is_undefined 3 p1 evening
      (record {
        before = room_of started (some alice) (some bob) ∷ [];
        room = record (room_of waiting_players (some (record alice { id = 3 })) none) {
          address = 1;
        };
        after = [];
      })
      refl (ground arith) refl refl (refl, tt)

-- A player connects, and has said that it joins and is ready.
abbrev hurried : Lobby
hurried = record evening {
  env = record calm {
    connectivity_callback = some gameplay_callback;
    subscriptions = (3, manager_subscription ∷ room_subscription 1 ∷ []) ∷ [];
    hub = record calm.hub {
      player_action_messages_by_player_id =
          (4, join_game "dan" easy ∷ set_ready_state true ∷ []) ∷ [];
      player_connectivity_messages = record { message_type = connect; player_id = 4 } ∷ [];
    };
  };
}

hurried-OthersAreQuiet : OthersAreQuiet 4 hurried.env
unfolding at
hurried-OthersAreQuiet = ((refl, refl), tt)

ready_with_join_is_lost_example :
    (is_ok (dispatch_messages hurried).0 ≡ true)
    × (actions_of 4 (dispatch_messages hurried).1.env ≡ [])
    × ((dispatch_messages hurried).1.rooms ≡ (add_player_to_room 4 "dan" easy hurried).1.rooms)
unfolding at
ready_with_join_is_lost_example =
    ready_with_join_is_lost 4 "dan" easy hurried refl refl refl hurried-OthersAreQuiet
      evening-AreLive

-- A player connects, another one is ready.
abbrev busy : Lobby
busy = record evening {
  env = record calm {
    connectivity_callback = some gameplay_callback;
    subscriptions = (3, manager_subscription ∷ room_subscription 1 ∷ []) ∷ [];
    hub = record calm.hub {
      player_action_messages_by_player_id = (3, set_ready_state true ∷ notify_can_play ∷ []) ∷ [];
      player_connectivity_messages = record { message_type = connect; player_id = 9 } ∷ [];
    };
  };
}

busy-AreValid : AreValid busy.rooms
busy-AreValid = (evening-AreLive.0.valid, (evening-AreLive.1.0.valid, tt))

busy-AreShort : AreShort 3 busy
unfolding at
busy-AreShort j = ground arith

dispatch_messages-Dispatches_example :
    (let k = after_connections (record { message_type = connect; player_id = 9 } ∷ []) busy in
      dispatch_messages busy ≡ dispatch_actions (keys k.env.subscriptions) k)
    × Dispatches busy (dispatch_messages busy)
dispatch_messages-Dispatches_example = dispatch_messages-Dispatches busy busy-AreValid refl

dispatch_loops-ended_example : dispatch_loops 3 busy ≡ ended (dispatch_messages busy)
dispatch_loops-ended_example =
    dispatch_loops-ended 3 busy busy-AreValid refl (omega arith) busy-AreShort
