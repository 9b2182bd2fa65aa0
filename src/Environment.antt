-- ===== src/Environment.antt =====
-- What a room and the room manager act on beside their own objects: the clock of
-- gameplay/GameplayChrono.cpp, the draws of gameplay/GetRandomValueInRange.h, and the broker of
-- messages/GameplayMessageBroker.h with the hub of messages/MessageHub.h that it writes to.
use samurai_kirby_server.Prelude.{
  ℕ, suc, Option, some, ◌-◌, ◌/◌, Bool, true, false, List, [], ◌∷◌, ◌++◌, leb, if◌then◌else◌, ◌==◌,
  ℤ, pos, negsuc, to_int,
}
use samurai_kirby_server.Prelude.UnorderedMap
use samurai_kirby_server.Exec.{Exec, ok, pure, ◌>>=◌}
use samurai_kirby_server.Messages.{GameplayMessage, PlayerActionMessage, PlayerConnectivityMessage}

abbrev pub nanoseconds : ℕ
nanoseconds = 1000000000

-- The queues are in order of arrival: `front()` is the head of the list.
pub record MessageHub : Type 0 where
  pub player_action_messages_by_player_id : List (ℕ × List PlayerActionMessage)
  pub gameplay_messages_by_player_id : List (ℕ × List GameplayMessage)
  pub player_connectivity_messages : List PlayerConnectivityMessage

-- The object that subscribes: the `void *context`, which is also what the callback captures as
-- `this`. A room is named by its address.
pub data Context : Type 0 where
  gameplay : Context
  room_at : ℕ → Context

abbrev pub same_context : Context → Context → Bool
same_context gameplay gameplay = true
same_context gameplay (room_at b) = false
same_context (room_at a) gameplay = false
same_context (room_at a) (room_at b) = a == b

-- The two callbacks that the code subscribes: the λ of Gameplay::handlePlayerConnectivityMessage,
-- and that of Room::addPlayer.
pub data PlayerActionCallback : Type 0 where
  manager_callback : PlayerActionCallback
  room_callback : ℕ → PlayerActionCallback

pub record Subscription : Type 0 where
  pub context : Context
  pub callback : PlayerActionCallback

-- The callback that the constructor of Gameplay subscribes.
pub data PlayerConnectivityCallback : Type 0 where
  gameplay_callback : PlayerConnectivityCallback

pub record Environment : Type 0 where
  -- `clock n` is the n-th reading of the system clock, in nanoseconds, and `readings` of them are
  -- made; `random n a b` is the n-th draw, if it is asked for from `a` to `b`.
  pub clock : ℕ → ℕ
  pub readings : ℕ
  pub random : ℕ → ℕ → ℕ → ℕ
  pub draws : ℕ
  pub connectivity_callback : Option PlayerConnectivityCallback
  pub subscriptions : List (ℕ × List Subscription)
  pub hub : MessageHub

-- getTimeNow()
unfoldable pub get_time_now : Exec Environment ℕ
get_time_now e = (ok (e.clock e.readings), record e { readings = suc e.readings })

-- `duration_cast` to whole seconds, towards zero.
unfoldable pub seconds_between : ℕ → ℕ → ℤ
seconds_between reference now =
    if leb reference now
    then pos ((now - reference) / nanoseconds)
    else let whole = (reference - now) / nanoseconds in
      if whole == 0 then pos 0 else negsuc (whole - 1)

-- getSecondsSince(reference): the count of seconds is narrowed to an int.
unfoldable pub get_seconds_since : ℕ → Exec Environment ℤ
unfolding get_time_now
get_seconds_since reference = do now ← get_time_now; pure (to_int (seconds_between reference now))

-- getRandomValueInRange(min, max)
unfoldable pub get_random_value_in_range : ℕ → ℕ → Exec Environment ℕ
get_random_value_in_range min max e =
    (ok (e.random e.draws min max), record e { draws = suc e.draws })

-- GameplayMessageBroker::publishGameplayMessage
unfoldable pub publish_gameplay_message : ℕ → GameplayMessage → Environment → Environment
publish_gameplay_message player_id message e = record e {
  hub = record hub {
    gameplay_messages_by_player_id =
        UnorderedMap.update [] player_id (λ queue. queue ++ message ∷ [])
          hub.gameplay_messages_by_player_id;
  };
}
  where
    open e use {hub}

-- GameplayMessageBroker::subscribeToPlayerConnectivityMessages
unfoldable pub subscribe_to_player_connectivity_messages :
    PlayerConnectivityCallback → Environment → Environment
subscribe_to_player_connectivity_messages callback e = record e {
  connectivity_callback = some callback;
}

-- GameplayMessageBroker::subscribeToPlayerActionMessages
unfoldable pub subscribe_to_player_action_messages :
    ℕ → PlayerActionCallback → Context → Environment → Environment
subscribe_to_player_action_messages player_id callback context e = record e {
  subscriptions =
      UnorderedMap.update [] player_id
        (λ callbacks. callbacks ++ record { context = context; callback = callback } ∷ [])
        e.subscriptions;
}

-- The loop of GameplayMessageBroker::unsubscribeToPlayerActionMessages, over its list.
pub without_context : Context → List Subscription → List Subscription
without_context context [] = []
without_context context (s ∷ rest) =
    if same_context s.context context
    then without_context context rest
    else s ∷ without_context context rest

-- GameplayMessageBroker::unsubscribeToPlayerActionMessages. `callbacksWithContext` is a copy of the
-- vector in the map: the loop erases from the copy, and the copy is dropped. What stays of the call
-- is the entry that `operator[]` makes where there is none.
unfoldable pub unsubscribe_to_player_action_messages : ℕ → Context → Environment → Environment
unfolding without_context
unsubscribe_to_player_action_messages player_id context e =
    let callbacks_with_context = UnorderedMap.at [] player_id e.subscriptions in
    let remaining = without_context context callbacks_with_context in
    record e { subscriptions = UnorderedMap.update [] player_id (λ stored. stored) e.subscriptions }
