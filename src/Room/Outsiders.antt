-- ===== src/Room/Outsiders.antt =====
-- What the ticks of Room.cpp send to an id that sits in neither slot: nothing.
use mathlib.Core.List.{append-nil}
use samurai_kirby_server.Prelude.{ℕ, suc, ◌≡◌, refl, ◌∙◌, Option, none, some, arith}
use samurai_kirby_server.Exec.{Result, ok, err, continue, ◌>>◌}
use samurai_kirby_server.Player.{GameplayInput, Player, GameDifficulty, reset_to_replay}
use samurai_kirby_server.Messages.{game_expecting_input, GameplayMessage}
use samurai_kirby_server.Environment.{get_time_now, Environment}
use samurai_kirby_server.Room.Ticks.{
  stamped, request_input, request_input_when_due, handle_everyone_ready, handle_everyone_can_play,
  handle_one_player_played, handle_everyone_played, handle_timeout, handle_replay, tick_in,
  get_random_gameplay_input,
}
use samurai_kirby_server.Room.State.{
  on_room, Room, RoomWorld, GameplayState, waiting_players, started, expecting_input, over, notify,
  broadcast_gameplay_message,
}
use samurai_kirby_server.Room.Seats.{seat, room_seats}
use samurai_kirby_server.Room.Mailbox.{mailbox, mailbox-notify}
use samurai_kirby_server.Room.Frame.{can_play-Keeps, one_played-Keeps, everyone_played-Keeps}

-- The id `j` sits in neither slot.
abbrev pub IsAbsent : ℕ → Room → Type 0
IsAbsent j r = room_seats j r ≡ 0

abbrev pub SameMail : ℕ → RoomWorld → RoomWorld → Type 0
SameMail j w v = mailbox j v.env ≡ mailbox j w.env

pub notify-mail :
    (j : ℕ) (p : Option Player) (m : GameplayMessage) (e : Environment)
    → seat j p ≡ 0
    → mailbox j (notify p m e) ≡ mailbox j e
unfolding notify
notify-mail j none m e h = refl
notify-mail j (some p) m e h =
    mailbox-notify j (some p) m e ∙ ground (arith, append-nil (mailbox j e))

pub broadcast-mail :
    (j : ℕ) (m : GameplayMessage) (w : RoomWorld)
    → IsAbsent j w.room
    → SameMail j w (broadcast_gameplay_message m w).1
unfolding broadcast_gameplay_message
broadcast-mail j m w h =
    notify-mail j w.room.player2 m (notify w.room.player1 m w.env) (ground arith)
    ∙ notify-mail j w.room.player1 m w.env (ground arith)

everyone_ready-mail :
    (j : ℕ) (w : RoomWorld) → IsAbsent j w.room → SameMail j w (handle_everyone_ready w).1
unfolding handle_everyone_ready
everyone_ready-mail j w h = grind (arith, broadcast-mail)

one_played-mail :
    (j : ℕ) (w : RoomWorld) → IsAbsent j w.room → SameMail j w (handle_one_player_played w).1
unfolding handle_one_player_played
one_played-mail j w h = grind (arith, broadcast-mail)

everyone_played-mail :
    (j : ℕ) (w : RoomWorld) → IsAbsent j w.room → SameMail j w (handle_everyone_played w).1
unfolding handle_everyone_played
everyone_played-mail j w h = grind (arith, broadcast-mail)

timeout-mail : (j : ℕ) (w : RoomWorld) → IsAbsent j w.room → SameMail j w (handle_timeout w).1
unfolding handle_timeout
timeout-mail j w h = grind (arith, broadcast-mail)

replay-mail : (j : ℕ) (w : RoomWorld) → IsAbsent j w.room → SameMail j w (handle_replay w).1
unfolding handle_replay reset_to_replay
replay-mail j w h = grind (arith, broadcast-mail)

random-mail :
    (j : ℕ) (d : GameDifficulty) (e : Environment)
    → mailbox j (get_random_gameplay_input d e).1 ≡ mailbox j e
unfolding get_random_gameplay_input
random-mail j d e = ground arith

-- What comes after the draw of the input.
drawn-mail :
    (j : ℕ) (w : RoomWorld) (o : Result GameplayInput × Environment)
    → IsAbsent j w.room
    → mailbox j o.1 ≡ mailbox j w.env
    → SameMail j w
        (continue o.0
          (record w { env = o.1 })
          (λ input.
            on_room (λ r. record r { expected_input = input })
            >> broadcast_gameplay_message (game_expecting_input input))).1
drawn-mail j w (ok input, e) h same =
    broadcast-mail j (game_expecting_input input)
      (record { room = record w.room { expected_input = input }; env = e }) h
    ∙ same
drawn-mail j w (err x, e) h same = same

request_input-mail : (j : ℕ) (w : RoomWorld) → IsAbsent j w.room → SameMail j w (request_input w).1
unfolding request_input get_time_now
request_input-mail j w h =
    let e = record w.env { readings = suc w.env.readings } in
    let d = w.room.config.difficulty in
    drawn-mail j
      (record {
        room = record w.room {
          gameplay_state = expecting_input;
          ready_for_input_at = some (w.env.clock w.env.readings);
        };
        env = e;
      })
      (get_random_gameplay_input d e) h (random-mail j d e)

due-mail : (j : ℕ) (w : RoomWorld) → IsAbsent j w.room → SameMail j w (request_input_when_due w).1
unfolding request_input_when_due
due-mail j w h = ground (
  arith,
  request_input-mail j (record w { env = record w.env { readings = suc w.env.readings } }) h,
)

can_play-mail :
    (j : ℕ) (w : RoomWorld) → IsAbsent j w.room → SameMail j w (handle_everyone_can_play w).1
unfolding handle_everyone_can_play
can_play-mail j w h = ground (arith, due-mail j w h, due-mail j (stamped w) h)

pub tick_in-mail :
    (j : ℕ) (g : GameplayState) (w : RoomWorld) → IsAbsent j w.room → SameMail j w (tick_in g w).1
unfolding tick_in
tick_in-mail j waiting_players w h = everyone_ready-mail j w h
tick_in-mail j started w h =
    let v = (handle_everyone_can_play w).1 in
    ground (arith, can_play-mail j w h, one_played-mail j v (ground (arith, can_play-Keeps w)))
tick_in-mail j expecting_input w h =
    let v = (handle_one_player_played w).1 in
    let u = (handle_everyone_played v).1 in
    ground (
      arith,
      one_played-mail j w h,
      everyone_played-mail j v (ground (arith, one_played-Keeps w)),
      timeout-mail j u (ground (arith, one_played-Keeps w, everyone_played-Keeps v)),
    )
tick_in-mail j over w h = replay-mail j w h
