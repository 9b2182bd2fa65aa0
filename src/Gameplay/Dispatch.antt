-- ===== src/Gameplay/Dispatch.antt =====
-- A whole dispatch of the gameplay's broker: the connections, and then the actions.
use samurai_kirby_server.Prelude.{
  ℕ, ◌≡◌, refl, ap, sym, ◌∙◌, some, true, List, [], ◌∷◌, All, All-map, if◌then◌else◌, arith, ◌++◌,
}
use samurai_kirby_server.Prelude.UnorderedMap.{update, among, keys, has_key, at}
use samurai_kirby_server.Exec.{
  Result, ok, err, undefined_behaviour, runtime_error, bad_optional_access, bad_function_call,
  serialize_exception,
}
use samurai_kirby_server.Messages.{
  PlayerConnectivityMessage, PlayerConnectivityMessageType, connect, disconnect,
}
use samurai_kirby_server.Environment.{
  gameplay_callback, manager_callback, gameplay, subscribe_to_player_action_messages,
  unsubscribe_to_player_action_messages,
}
use samurai_kirby_server.Room.Input.{Input, input_of}
use samurai_kirby_server.RoomManager.{Lobby, remove_player_from_room}
use samurai_kirby_server.Gameplay.{
  actions_of, set_connectivity, handle_player_connectivity_message, dispatch_connectivity,
  dispatch_actions, dispatch_messages,
}
use samurai_kirby_server.RoomManager.Validity.{AreValid}
use samurai_kirby_server.Gameplay.Calls.{
  remove_player_from_room-Keeps, remove_player_from_room_returns,
}
use samurai_kirby_server.Gameplay.Stale.{IsStale, Courses, dispatch_actions-Courses}
use samurai_kirby_server.Gameplay.Draining.{Drains, dispatch_actions-Drains}

-- What becomes of a connection: a player that has come is listened to by the manager; one that has
-- gone is removed from the room that it is found in.
abbrev pub after_connection : PlayerConnectivityMessageType → ℕ → Lobby → Lobby
after_connection connect id l = record l {
  env = record l.env {
    subscriptions =
        update [] id (λ cs. cs ++ record { context = gameplay; callback = manager_callback } ∷ [])
          l.env.subscriptions;
  };
}
after_connection disconnect id l =
    let left = (remove_player_from_room id l).1 in
    record left { env = unsubscribe_to_player_action_messages id gameplay left.env }

-- Each connection in its turn, after which it waits no longer.
abbrev pub after_connections : List PlayerConnectivityMessage → Lobby → Lobby
after_connections [] l = l
after_connections (m ∷ rest) l =
    let t = after_connection m.message_type m.player_id l in
    after_connections rest (record t { env = set_connectivity rest t.env })

-- The lobby after a connection of a player was handled.
pub record Handled (type : PlayerConnectivityMessageType) (id : ℕ) (l : Lobby) : Type 0 where
  pub returned : handle_player_connectivity_message type id l ≡ (ok tt, after_connection type id l)
  pub valid : AreValid (after_connection type id l).rooms
  pub input : input_of (after_connection type id l).env ≡ input_of l.env

pub handle-Handled :
    (type : PlayerConnectivityMessageType) (id : ℕ) (l : Lobby)
    → AreValid l.rooms
    → Handled type id l
unfolding handle_player_connectivity_message subscribe_to_player_action_messages
    unsubscribe_to_player_action_messages
handle-Handled connect id l a = record { returned = refl; valid = a; input = refl }
handle-Handled disconnect id l a =
    let h = remove_player_from_room-Keeps id l a in
    record {
      returned = rw (remove_player_from_room_returns id l a) refl;
      valid = h.valid;
      input = h.input;
    }

-- The lobby after the connections that waited were handled.
pub record Told (queue : List PlayerConnectivityMessage) (l : Lobby) : Type 0 where
  pub returned : dispatch_connectivity queue l ≡ (ok tt, after_connections queue l)
  pub valid : AreValid (after_connections queue l).rooms
  pub connectivity : (after_connections queue l).env.hub.player_connectivity_messages ≡ []
  pub actions :
      (after_connections queue l).env.hub.player_action_messages_by_player_id
      ≡ l.env.hub.player_action_messages_by_player_id
  pub callback : (after_connections queue l).env.connectivity_callback ≡ l.env.connectivity_callback
  pub random : (after_connections queue l).env.random ≡ l.env.random

pub told_first :
    (m : PlayerConnectivityMessage) (rest : List PlayerConnectivityMessage) (l t : Lobby)
    → l.env.connectivity_callback ≡ some gameplay_callback
    → handle_player_connectivity_message m.message_type m.player_id l ≡ (ok tt, t)
    → dispatch_connectivity (m ∷ rest) l
      ≡ dispatch_connectivity rest (record t { env = set_connectivity rest t.env })
unfolding dispatch_connectivity
told_first m rest l t callback handled = simp (callback, handled)

pub dispatch_connectivity-Told :
    (queue : List PlayerConnectivityMessage) (l : Lobby)
    → AreValid l.rooms
    → l.env.connectivity_callback ≡ some gameplay_callback
    → l.env.hub.player_connectivity_messages ≡ queue
    → Told queue l
unfolding dispatch_connectivity
dispatch_connectivity-Told [] l a callback waiting = record {
  returned = refl;
  valid = a;
  connectivity = waiting;
  actions = refl;
  callback = refl;
  random = refl;
}
dispatch_connectivity-Told (m ∷ rest) l a callback waiting =
    let h = handle-Handled m.message_type m.player_id l a in
    let t = after_connection m.message_type m.player_id l in
    let next = record t { env = set_connectivity rest t.env } in
    let later =
      dispatch_connectivity-Told rest next h.valid
        (ap (λ (i : Input). i.callback) h.input ∙ callback) refl in
    record {
      returned = told_first m rest l t callback h.returned ∙ later.returned;
      valid = later.valid;
      connectivity = later.connectivity;
      actions = later.actions ∙ ap (λ (i : Input). i.actions) h.input;
      callback = later.callback ∙ ap (λ (i : Input). i.callback) h.input;
      random = later.random ∙ ap (λ (i : Input). i.random) h.input;
    }

-- The lobby `t` after a dispatch in `l`.
pub record IsDispatched (l t : Lobby) : Type 0 where
  pub valid : AreValid t.rooms
  pub queues :
      (j : ℕ)
      → actions_of j t.env ≡ (if has_key j t.env.subscriptions then [] else actions_of j l.env)
  pub connectivity : t.env.hub.player_connectivity_messages ≡ []
  pub callback : t.env.connectivity_callback ≡ l.env.connectivity_callback
  pub random : t.env.random ≡ l.env.random

abbrev pub Dispatches : Lobby → Result (Unit {0}) × Lobby → Type 0
Dispatches l (ok a, t) = IsDispatched l t
Dispatches l (err undefined_behaviour, t) = IsStale t
Dispatches l (err bad_optional_access, t) = ⊥
Dispatches l (err bad_function_call, t) = ⊥
Dispatches l (err runtime_error, t) = ⊥
Dispatches l (err serialize_exception, t) = ⊥

Told-Dispatches :
    (queue : List PlayerConnectivityMessage) (l : Lobby) (told : Told queue l)
    (o : Result (Unit {0}) × Lobby)
    → Drains (keys (after_connections queue l).env.subscriptions) (after_connections queue l) o
    → Courses IsStale (after_connections queue l) o
    → Dispatches l o
Told-Dispatches queue l told (ok a, t) d c = record {
  valid = d.valid;
  queues = λ j.
      d.queues j
      ∙ ap
          (λ q.
            if among j (keys (after_connections queue l).env.subscriptions) then [] else at [] j q)
          told.actions
      ∙ ap (λ ks. if among j ks then [] else actions_of j l.env) (sym d.same_keys);
  connectivity = d.connectivity ∙ told.connectivity;
  callback = d.callback ∙ told.callback;
  random = d.random ∙ told.random;
}
Told-Dispatches queue l told (err undefined_behaviour, t) d c = c.why refl
Told-Dispatches queue l told (err bad_optional_access, t) d c = absurd d
Told-Dispatches queue l told (err bad_function_call, t) d c = absurd d
Told-Dispatches queue l told (err runtime_error, t) d c = absurd d
Told-Dispatches queue l told (err serialize_exception, t) d c = absurd d

pub All-among : (ks : List ℕ) → All (λ j. among j ks ≡ true) ks
unfolding among
All-among [] = tt
All-among (k ∷ rest) = (ground arith, All-map _ _ rest (λ j h. ground (arith, h)) (All-among rest))

-- Let every room be valid and the gameplay's callback be subscribed. Then a dispatch is that of the
-- actions to the players that are listened to when each connection that waits has been handled, in
-- its turn: the manager listens to a player that has come, and one that has gone is removed from the
-- room that it is found in. It either throws nothing, and leaves every room valid, no connection
-- waiting, the queue of each player that is listened to empty and every other queue of actions as it
-- was, and the callback and the generator too; or it ends in undefined behaviour, where the callback
-- of a room that is not there is subscribed for some player. What Room::removePlayer reads of a
-- player, after it has emptied its slot, is taken to be what stood there.
pub dispatch_messages-Dispatches :
    (l : Lobby)
    → AreValid l.rooms
    → l.env.connectivity_callback ≡ some gameplay_callback
    → (let k = after_connections l.env.hub.player_connectivity_messages l in
        dispatch_messages l ≡ dispatch_actions (keys k.env.subscriptions) k)
      × Dispatches l (dispatch_messages l)
unfolding dispatch_messages
dispatch_messages-Dispatches l a callback =
    let queue = l.env.hub.player_connectivity_messages in
    let told = dispatch_connectivity-Told queue l a callback refl in
    let k = after_connections queue l in
    let ks = keys k.env.subscriptions in
    rw told.returned (
      refl,
      Told-Dispatches queue l told (dispatch_actions ks k)
          (dispatch_actions-Drains ks k told.valid (All-among ks))
          (dispatch_actions-Courses ks k told.valid),
    )
