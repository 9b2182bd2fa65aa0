-- ===== src/Room/Reachability.antt =====
-- Every history of a room: the calls that are made to it, and what other rooms and the network
-- thread do in between to the hub, the subscriptions and the clock.
use samurai_kirby_server.Prelude.{ℕ, String, ◌≡◌, refl, ◌∙◌}
use samurai_kirby_server.Exec.{Exec, ok}
use samurai_kirby_server.Messages.{PlayerActionMessage}
use samurai_kirby_server.Environment.{Environment}
use samurai_kirby_server.Room.State.{RoomConfig, RoomWorld, new_room}
use samurai_kirby_server.Room.Ticks.{tick}
use samurai_kirby_server.Room.Membership.{add_player, remove_player}
use samurai_kirby_server.Room.Actions.{handle_player_message}
use samurai_kirby_server.Room.Validity.{IsValid, DrawsInRange, Succeeds}
use samurai_kirby_server.Room.Safety.{
  new_room-IsValid, same_random-DrawsInRange, tick-Succeeds, add_player-Succeeds,
  remove_player-Succeeds, handle_player_message-Succeeds,
}

-- The calls that the room manager and the broker make.
pub data RoomCall : Type 0 where
  adds : ℕ → String → RoomCall
  removes : ℕ → RoomCall
  receives : ℕ → PlayerActionMessage → RoomCall
  ticks : RoomCall

abbrev pub run : RoomCall → Exec RoomWorld (Unit {0})
run (adds id nickname) = add_player id nickname
run (removes id) = remove_player id
run (receives id message) = handle_player_message id message
run ticks = tick

pub data Step : RoomWorld → RoomWorld → Type 0 where
  calls : (c : RoomCall) (w : RoomWorld) → Step w (run c w).1
  elsewhere :
      (w : RoomWorld) (e : Environment) → e.random ≡ w.env.random → Step w (record w { env = e })

pub data Reach (start : RoomWorld) : RoomWorld → Type 0 where
  here : Reach start start
  next : {v w : RoomWorld} → Reach start v → Step v w → Reach start w

abbrev pub fresh : ℕ → RoomConfig → Environment → RoomWorld
fresh address config e = record { room = new_room address config; env = e }

pub run-Succeeds :
    (c : RoomCall) (w : RoomWorld) → DrawsInRange w.env → IsValid w.room → Succeeds (run c) w
run-Succeeds (adds id nickname) w h v = add_player-Succeeds id nickname w v
run-Succeeds (removes id) w h v = remove_player-Succeeds id w v
run-Succeeds (receives id message) w h v = handle_player_message-Succeeds id message w v
run-Succeeds ticks w h v = tick-Succeeds w h v

-- What a history keeps.
pub record Kept (e : Environment) (w : RoomWorld) : Type 0 where
  pub valid : IsValid w.room
  pub same_random : w.env.random ≡ e.random

pub Reach-Kept :
    (address : ℕ) (config : RoomConfig) (e : Environment) {w : RoomWorld}
    → DrawsInRange e
    → Reach (fresh address config e) w
    → Kept e w
Reach-Kept address config e h here = record {
  valid = new_room-IsValid address config;
  same_random = refl;
}
Reach-Kept address config e h (next r (calls c v)) =
    let before = Reach-Kept address config e h r in
    let after =
      run-Succeeds c v (same_random-DrawsInRange e v.env before.same_random h) before.valid in
    record { valid = after.valid; same_random = after.same_random ∙ before.same_random }
Reach-Kept address config e h (next r (elsewhere v e' same)) =
    let before = Reach-Kept address config e h r in
    record { valid = before.valid; same_random = same ∙ before.same_random }

-- If draws lie between their bounds, then in every room that a history of calls leads to from a new
-- room, whatever changes elsewhere in between as long as the generator stays, the next call,
-- whichever it is, returns without an exception and leaves a valid room: both slots are filled
-- unless the room waits for players, a room that expects an input knows since when, each player
-- sits in the slot of its assignment, and an input has the time at which it came.
pub reachable_never_throws :
    (address : ℕ) (config : RoomConfig) (e : Environment) {w : RoomWorld} (c : RoomCall)
    → DrawsInRange e
    → Reach (fresh address config e) w
    → ((run c w).0 ≡ ok tt) × IsValid (run c w).1.room
reachable_never_throws address config e {w} c h r =
    let before = Reach-Kept address config e h r in
    let after =
      run-Succeeds c w (same_random-DrawsInRange e w.env before.same_random h) before.valid in
    (after.returned, after.valid)
