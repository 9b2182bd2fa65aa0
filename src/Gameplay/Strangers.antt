-- ===== src/Gameplay/Strangers.antt =====
-- What the rounds of the gameplay's thread mean for an id that the game does not know.
use samurai_kirby_server.Prelude.{
  ℕ, ◌≡◌, refl, ap, ◌∙◌, false, some, List, [], ◌∷◌, All, ◌==◌, arith, subst, sym,
}
use samurai_kirby_server.Prelude.UnorderedMap.{at, among, keys}
use samurai_kirby_server.Exec.{Result, ok}
use samurai_kirby_server.Messages.{
  PlayerConnectivityMessage, PlayerConnectivityMessageType, connect, disconnect,
}
use samurai_kirby_server.Environment.{
  subscribe_to_player_action_messages, unsubscribe_to_player_action_messages, gameplay_callback,
}
use samurai_kirby_server.Room.Strangers.{update-heard}
use samurai_kirby_server.Room.Input.{Input}
use samurai_kirby_server.Room.Validity.{DrawsInRange}
use samurai_kirby_server.RoomManager.{Lobby, remove_player_from_room, tick_all_rooms}
use samurai_kirby_server.RoomManager.Validity.{AreValid, tick_all_rooms-TicksAll}
use samurai_kirby_server.RoomManager.Strangers.{
  StrangerIn, remove_player_from_room-StrangerIn, tick_all_rooms-StrangerIn,
}
use samurai_kirby_server.Gameplay.Bystanders.{dispatch_actions-StrangerIn}
use samurai_kirby_server.Gameplay.{
  actions_of, handle_player_connectivity_message, dispatch_connectivity, dispatch_messages,
  set_connectivity, dispatch_actions,
}
use samurai_kirby_server.Gameplay.Calls.{remove_player_from_room_returns}
use samurai_kirby_server.Gameplay.Draining.{Drains-returned, dispatch_actions-Drains}
use samurai_kirby_server.Gameplay.Dispatch.{
  after_connection, after_connections, handle-Handled, told_first, dispatch_connectivity-Told,
  All-among,
}

handle-StrangerIn :
    (j : ℕ) (type : PlayerConnectivityMessageType) (id : ℕ) (l : Lobby)
    → (id == j) ≡ false
    → AreValid l.rooms
    → StrangerIn j l
    → StrangerIn j (handle_player_connectivity_message type id l).1
unfolding handle_player_connectivity_message subscribe_to_player_action_messages
    unsubscribe_to_player_action_messages
handle-StrangerIn j connect id l o a h = record {
  absent = h.absent;
  mail = h.mail;
  heard = update-heard j id _ l.env.subscriptions o ∙ h.heard;
}
handle-StrangerIn j disconnect id l o a h =
    let left = remove_player_from_room-StrangerIn j id l a h in
    rw (remove_player_from_room_returns id l a) (record {
      absent = left.absent;
      mail = left.mail;
      heard = update-heard j id _ (remove_player_from_room id l).1.env.subscriptions o ∙ left.heard;
    })

dispatch_connectivity-StrangerIn :
    (j : ℕ) (queue : List PlayerConnectivityMessage) (l : Lobby)
    → AreValid l.rooms
    → l.env.connectivity_callback ≡ some gameplay_callback
    → All (λ m. (m.player_id == j) ≡ false) queue
    → StrangerIn j l
    → StrangerIn j (dispatch_connectivity queue l).1
unfolding dispatch_connectivity
dispatch_connectivity-StrangerIn j [] l a callback others h = h
dispatch_connectivity-StrangerIn j (m ∷ rest) l a callback (o, others) h =
    let k = handle-Handled m.message_type m.player_id l a in
    let now =
      subst (λ (x : Result (Unit {0}) × Lobby). StrangerIn j x.1) k.returned
        (handle-StrangerIn j m.message_type m.player_id l o a h) in
    rw (told_first m rest l (after_connection m.message_type m.player_id l) callback k.returned) (
      dispatch_connectivity-StrangerIn j rest
        (record (after_connection m.message_type m.player_id l) {
          env = set_connectivity rest (after_connection m.message_type m.player_id l).env;
        })
        k.valid (ap (λ (i : Input). i.callback) k.input ∙ callback) others
        (record { absent = now.absent; mail = now.mail; heard = now.heard }))

-- The gameplay does not know the id `j`, and nothing that waits for the gameplay is about it.
pub record IsUnknown (j : ℕ) (l : Lobby) : Type 0 where
  pub stranger : StrangerIn j l
  pub actions : actions_of j l.env ≡ []
  pub connections : All (λ m. (m.player_id == j) ≡ false) l.env.hub.player_connectivity_messages

others-among : (j : ℕ) (ks : List ℕ) → among j ks ≡ false → All (λ k. (k == j) ≡ false) ks
unfolding among
others-among j [] h = tt
others-among j (k ∷ ks) h = (ground (arith, h), others-among j ks (ground (arith, h)))

pub dispatch_messages-IsUnknown :
    (j : ℕ) (l : Lobby)
    → AreValid l.rooms
    → l.env.connectivity_callback ≡ some gameplay_callback
    → IsUnknown j l
    → (dispatch_messages l).0 ≡ ok tt
    → IsUnknown j (dispatch_messages l).1
unfolding dispatch_messages
dispatch_messages-IsUnknown j l a callback h good =
    let queue = l.env.hub.player_connectivity_messages in
    let told = dispatch_connectivity-Told queue l a callback refl in
    let met =
      subst (λ (x : Result (Unit {0}) × Lobby). StrangerIn j x.1) told.returned
        (dispatch_connectivity-StrangerIn j queue l a callback h.connections h.stranger) in
    let ks = keys (after_connections queue l).env.subscriptions in
    let known = All-among ks in
    let others = others-among j ks met.heard in
    let d =
      Drains-returned ks (after_connections queue l)
        (dispatch_actions ks (after_connections queue l)) (rw told.returned at good)
        (dispatch_actions-Drains ks (after_connections queue l) told.valid known) in
    rw told.returned (record {
      stranger =
          dispatch_actions-StrangerIn j ks (after_connections queue l) told.valid known others met;
      actions = d.queues j ∙ rw (ap (at [] j) told.actions ∙ h.actions) (ground arith);
      connections = rw (d.connectivity ∙ told.connectivity) tt;
    })

pub tick_all_rooms-IsUnknown :
    (j : ℕ) (l : Lobby)
    → DrawsInRange l.env
    → AreValid l.rooms
    → IsUnknown j l
    → IsUnknown j (tick_all_rooms l).1
tick_all_rooms-IsUnknown j l draws a h =
    let input = (tick_all_rooms-TicksAll l draws a).input in
    record {
      stranger = tick_all_rooms-StrangerIn j l draws a h.stranger;
      actions = ap (λ (i : Input). at [] j i.actions) input ∙ h.actions;
      connections =
          subst (All (λ m. (m.player_id == j) ≡ false))
            (sym (ap (λ (i : Input). i.connectivity) input)) h.connections;
    }
