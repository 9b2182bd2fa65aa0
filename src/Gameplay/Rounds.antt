-- ===== src/Gameplay/Rounds.antt =====
-- A round of the gameplay's loop in which nobody leaves.
use samurai_kirby_server.Prelude.{
  ℕ, ◌≡◌, ◌≢◌, refl, ap, ◌∙◌, subst, some, Bool, true, false, List, [], ◌∷◌, All, All-map, arith,
  if◌then◌else◌, ◌==◌,
}
use samurai_kirby_server.Prelude.UnorderedMap.{among, has_key, at, keys}
use samurai_kirby_server.Exec.{Result, ok}
use samurai_kirby_server.Messages.{leave_game, PlayerConnectivityMessage, connect}
use samurai_kirby_server.Environment.{
  gameplay_callback, manager_callback, gameplay, subscribe_to_player_action_messages,
}
use samurai_kirby_server.Room.Validity.{DrawsInRange}
use samurai_kirby_server.Room.Safety.{same_random-DrawsInRange}
use samurai_kirby_server.RoomManager.{Lobby}
use samurai_kirby_server.Gameplay.{
  actions_of, set_actions, set_connectivity, deliver, dispatch_actions, dispatch_connectivity,
  dispatch_messages, round, handle_player_connectivity_message,
}
use samurai_kirby_server.RoomManager.Validity.{AreValid, tick_all_rooms-TicksAll}
use samurai_kirby_server.Gameplay.Draining.{
  actions_of-set_actions, deliver-Drains, dispatch_actions-Drains, Drains-returned,
}
use samurai_kirby_server.Gameplay.Dispatch.{
  after_connections, told_first, dispatch_connectivity-Told, All-among,
}
use samurai_kirby_server.Gameplay.Links.{IsLinked-at, IsLinked-update}
use samurai_kirby_server.Gameplay.Ticking.{tick_all_rooms-Stays}
use samurai_kirby_server.Gameplay.Staying.{
  Linked, Stays, continue-Stays, same_rooms-Stays, deliver-Stays,
}

All-if :
    {A : Type 0} (b : Bool) (P : A → Type 0) (xs ys : List A)
    → All P xs
    → All P ys
    → All P (if b then xs else ys)
All-if true P xs ys h k = h
All-if false P xs ys h k = k

abbrev pub NobodyLeaves : Lobby → Type 0
NobodyLeaves l = (j : ℕ) → All (λ m. m ≢ leave_game) (actions_of j l.env)

dispatch_actions-Stays :
    (ks : List ℕ) (l : Lobby)
    → AreValid l.rooms
    → All (λ j. has_key j l.env.subscriptions ≡ true) ks
    → NobodyLeaves l
    → Linked l
    → Stays l (dispatch_actions ks l)
unfolding dispatch_actions
dispatch_actions-Stays [] l a known stays h = record {
  returned = refl;
  linked = h;
  grows = λ _ k. k;
}
dispatch_actions-Stays (id ∷ rest) l a (here, known) stays h =
    let queue = actions_of id l.env in
    let cs = at [] id l.env.subscriptions in
    let first = record l { env = set_actions id queue l.env } in
    let o = deliver cs id queue first in
    let one =
      deliver-Stays cs id queue first (stays id) a (IsLinked-at l.rooms id l.env.subscriptions h)
        h in
    let d = Drains-returned (id ∷ []) first o one.returned (
      deliver-Drains cs id queue first a here
        (actions_of-set_actions id id queue l.env ∙ ground arith)) in
    continue-Stays l o _ (same_rooms-Stays first l o refl one) λ next grows.
      dispatch_actions-Stays rest o.1 d.valid
        (All-map _ _ rest (λ j k. ap (among j) d.same_keys ∙ k) known)
        (λ j.
          rw (d.queues j, actions_of-set_actions id j queue l.env)
            (All-if (among j (id ∷ [])) _ [] _ tt
              (All-if (id == j) _ queue (actions_of j l.env) (stays id) (stays j))))
        next

-- Those who wait to be connected, and nobody who has left.
abbrev pub AllConnect : List PlayerConnectivityMessage → Type 0
AllConnect queue = All (λ m. m.message_type ≡ connect) queue

-- The lobby after connections: its rooms are those of `l`.
record Connects (l k : Lobby) : Type 0 where
  pub rooms : k.rooms ≡ l.rooms
  pub linked : Linked k

connect-eq :
    (m : PlayerConnectivityMessage) (l : Lobby)
    → m.message_type ≡ connect
    → handle_player_connectivity_message m.message_type m.player_id l ≡ (
      ok tt,
      record l {
        env = subscribe_to_player_action_messages m.player_id manager_callback gameplay l.env;
      },
    )
unfolding handle_player_connectivity_message
connect-eq m l e = rw e refl

dispatch_connectivity-Connects :
    (queue : List PlayerConnectivityMessage) (l : Lobby)
    → l.env.connectivity_callback ≡ some gameplay_callback
    → AllConnect queue
    → Linked l
    → Connects l (dispatch_connectivity queue l).1
unfolding dispatch_connectivity subscribe_to_player_action_messages
dispatch_connectivity-Connects [] l callback all h = record { rooms = refl; linked = h }
dispatch_connectivity-Connects (m ∷ rest) l callback (here, all) h =
    let t = record l {
      env = subscribe_to_player_action_messages m.player_id manager_callback gameplay l.env;
    } in
    let later =
      dispatch_connectivity-Connects rest (record t { env = set_connectivity rest t.env }) callback
        all (IsLinked-update l.rooms m.player_id _ l.env.subscriptions refl h) in
    rw (told_first m rest l t callback (connect-eq m l here))
      (record { rooms = later.rooms; linked = later.linked })

pub dispatch_messages-Stays :
    (l : Lobby)
    → AreValid l.rooms
    → l.env.connectivity_callback ≡ some gameplay_callback
    → Linked l
    → AllConnect l.env.hub.player_connectivity_messages
    → NobodyLeaves l
    → Stays l (dispatch_messages l)
      × AreValid (dispatch_messages l).1.rooms
      × ((dispatch_messages l).1.env.random ≡ l.env.random)
unfolding dispatch_messages
dispatch_messages-Stays l a callback h connects stays =
    let queue = l.env.hub.player_connectivity_messages in
    let told = dispatch_connectivity-Told queue l a callback refl in
    let c =
      subst (λ (o : Result (Unit {0}) × Lobby). Connects l o.1) told.returned
        (dispatch_connectivity-Connects queue l callback connects h) in
    let ks = keys (after_connections queue l).env.subscriptions in
    let o = dispatch_actions ks (after_connections queue l) in
    let s =
      dispatch_actions-Stays ks (after_connections queue l) told.valid (All-among ks)
        (λ j. rw told.actions (stays j)) c.linked in
    let d =
      Drains-returned ks (after_connections queue l) o s.returned
        (dispatch_actions-Drains ks (after_connections queue l) told.valid (All-among ks)) in
    rw told.returned
      (same_rooms-Stays (after_connections queue l) l o c.rooms s, d.valid, d.random ∙ told.random)

-- Let draws lie between their bounds, every room be valid, the gameplay's callback be subscribed, and
-- every callback of a room lead to one that is there; and let those that wait to be connected be
-- new, and no message wait that a player leaves. Then the round of the gameplay's loop
-- returns without an exception or undefined behaviour, every room is valid after it, no room was destroyed, and every callback leads again
-- to a room that is there.
round-Stays :
    (l : Lobby)
    → DrawsInRange l.env
    → AreValid l.rooms
    → l.env.connectivity_callback ≡ some gameplay_callback
    → Linked l
    → AllConnect l.env.hub.player_connectivity_messages
    → NobodyLeaves l
    → Stays l (round l) × AreValid (round l).1.rooms
unfolding round
round-Stays l draws a callback h connects stays =
    let (s, v, r) = dispatch_messages-Stays l a callback h connects stays in
    let o = dispatch_messages l in
    let d = same_random-DrawsInRange l.env o.1.env r draws in
    (
      continue-Stays l o _ s (λ next grows. tick_all_rooms-Stays o.1 d v next),
      rw s.returned ((tick_all_rooms-TicksAll o.1 d v).valid),
    )
