-- ===== src/Room/Verdict.antt =====
-- The rules by which a game that expects an input is decided, as the code has them, and that a tick
-- of the room (gameplay/Room/Room.cpp) follows them.
use samurai_kirby_server.Prelude.{
  List, [], ◌++◌, sym, ap, ◌∙◌, ℕ, ◌≡◌, Option, none, some, ltb, leb_ℤ, to_int, ℤ, pos, not,
  if◌then◌else◌, arith,
}
use mathlib.Core.List.{append-nil, append_assoc}
use samurai_kirby_server.Prelude.UnorderedMap
use samurai_kirby_server.Room.Mailbox.{mailbox, copy_for, mailbox-notify}
use samurai_kirby_server.Player.{
  PlayerAssignment, p1, p2, Player, GameplayInput, same_input, build_gameover_dto,
}
use samurai_kirby_server.Messages.{
  GameplayMessage, GameResultDto, game_over_wrong_input, game_over_win, game_over_draw,
}
use samurai_kirby_server.Environment.{publish_gameplay_message, Environment, seconds_between}
use samurai_kirby_server.Room.State.{
  Room, RoomConfig, RoomWorld, expecting_input, over, notify, GameplayState,
}
use samurai_kirby_server.Room.Ticks.{
  handle_one_player_played, handle_everyone_played, handle_timeout, tick, other,
}
use samurai_kirby_server.Room.Validity.{IsSeated}

pub data Verdict : Type 0 where
  pending draw : Verdict
  wrong_input : PlayerAssignment → Verdict
  win : PlayerAssignment → Verdict

-- The whole seconds from `since` to `now`, as the code counts them.
abbrev pub seconds_from : Option ℕ → ℕ → ℤ
seconds_from none now = pos 0
seconds_from (some since) now = to_int (seconds_between since now)

-- One player, in slot `who`, has pressed `input` at `pressed_at`.
abbrev pub judge_one :
    RoomConfig → GameplayInput → PlayerAssignment → GameplayInput → Option ℕ → ℕ → Verdict
judge_one config expected who input pressed_at now =
    if not (same_input input expected)
    then wrong_input (other who)
    else if leb_ℤ config.one_player_input_only_timeout (seconds_from pressed_at now)
    then win who
    else pending

-- Both have pressed: the times at which the server got the inputs decide, and nothing else.
abbrev pub judge_both : Option ℕ → Option ℕ → Verdict
judge_both (some a) (some b) = if ltb a b then win p1 else if ltb b a then win p2 else draw
judge_both none b = pending
judge_both (some a) none = pending

abbrev judge_inputs :
    Room → Player → Player → Option GameplayInput → Option GameplayInput → ℕ → Verdict
judge_inputs r a b (some i) (some j) now =
    judge_both a.input_pressed_at_server_time b.input_pressed_at_server_time
judge_inputs r a b (some i) none now =
    judge_one r.config r.expected_input p1 i a.input_pressed_at_server_time now
judge_inputs r a b none (some j) now =
    judge_one r.config r.expected_input p2 j b.input_pressed_at_server_time now
judge_inputs r a b none none now =
    if leb_ℤ r.config.no_input_timeout (seconds_from r.ready_for_input_at now)
    then draw
    else pending

-- The verdict on a room with the players `a` and `b`, at the time `now`.
abbrev pub judge : Room → Player → Player → ℕ → Verdict
judge r a b now = judge_inputs r a b a.input_pressed b.input_pressed now

abbrev pub game_result : Option PlayerAssignment → Player → Player → GameResultDto
game_result winner a b = record {
  winning_player = winner;
  player1 = build_gameover_dto a;
  player2 = build_gameover_dto b;
}

-- What both players are told.
abbrev pub announcement : Verdict → Player → Player → Option GameplayMessage
announcement pending a b = none
announcement draw a b = some (game_over_draw (game_result none a b))
announcement (wrong_input winner) a b = some (game_over_wrong_input (game_result (some winner) a b))
announcement (win winner) a b = some (game_over_win (game_result (some winner) a b))

abbrev pub state_after : Verdict → GameplayState
state_after pending = expecting_input
state_after draw = over
state_after (wrong_input winner) = over
state_after (win winner) = over

abbrev pub announce : Option GameplayMessage → Player → Player → Environment → Environment
announce none a b e = e
announce (some m) a b e = notify (some b) m (notify (some a) m e)

-- A tick does what the verdict says.
pub record Settles (v : Verdict) (a b : Player) (before after : RoomWorld) : Type 0 where
  pub room : after.room ≡ record before.room { gameplay_state = state_after v }
  pub hub : after.env.hub ≡ (announce (announcement v a b) a b before.env).hub

-- Take a room that expects an input, with a player in each slot that sits there rightly, and with
-- the time since when it expects one. A tick decides the game as `judge` does at the time that the
-- clock shows: the state becomes the one of the verdict, nothing else of the room changes, and the
-- hub is as after the announcement of the verdict to both players.
pub tick-Settles :
    (w : RoomWorld) (a b : Player) (ready : ℕ)
    → w.room.gameplay_state ≡ expecting_input
    → w.room.player1 ≡ some a
    → w.room.player2 ≡ some b
    → w.room.ready_for_input_at ≡ some ready
    → IsSeated p1 (some a)
    → IsSeated p2 (some b)
    → Settles (judge w.room a b (w.env.clock w.env.readings)) a b w (tick w).1
unfolding tick handle_one_player_played handle_everyone_played handle_timeout build_gameover_dto
    notify publish_gameplay_message
tick-Settles w a b ready g ha hb hr sa sb = ground (arith)

-- The messages for `id` among what is announced.
abbrev pub told : ℕ → Option GameplayMessage → Player → Player → List GameplayMessage
told id none a b = []
told id (some m) a b = copy_for id (some a) m ++ copy_for id (some b) m

mailbox-announce :
    (id : ℕ) (m : Option GameplayMessage) (a b : Player) (e : Environment)
    → mailbox id (announce m a b e) ≡ mailbox id e ++ told id m a b
mailbox-announce id none a b e = sym (append-nil (mailbox id e))
mailbox-announce id (some m) a b e =
    mailbox-notify id (some b) m (notify (some a) m e)
    ∙ ap (λ q. q ++ copy_for id (some b) m) (mailbox-notify id (some a) m e)
    ∙ append_assoc (mailbox id e) _ _

-- Under the same conditions, a tick puts the announcement of the verdict at the end of the queue of
-- each of the two players, and leaves every other player's queue as it was; where the verdict is
-- pending nobody gets anything.
pub mailbox-tick :
    (w : RoomWorld) (a b : Player) (ready id : ℕ)
    → w.room.gameplay_state ≡ expecting_input
    → w.room.player1 ≡ some a
    → w.room.player2 ≡ some b
    → w.room.ready_for_input_at ≡ some ready
    → IsSeated p1 (some a)
    → IsSeated p2 (some b)
    → mailbox id (tick w).1.env
      ≡ mailbox id w.env
        ++ told id (announcement (judge w.room a b (w.env.clock w.env.readings)) a b) a b
mailbox-tick w a b ready id g ha hb hr sa sb =
    ap (λ h. UnorderedMap.at [] id h.gameplay_messages_by_player_id)
      (tick-Settles w a b ready g ha hb hr sa sb).hub
    ∙ mailbox-announce id _ a b w.env
