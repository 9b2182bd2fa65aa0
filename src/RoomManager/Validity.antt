-- ===== src/RoomManager/Validity.antt =====
-- The rooms whatever callbacks are called: each is valid, but it may be empty.
use samurai_kirby_server.Prelude.{◌≡◌, refl, ◌∙◌, List, [], ◌∷◌, ◌++◌, All}
use samurai_kirby_server.Exec.{ok}
use samurai_kirby_server.Environment.{Environment}
use samurai_kirby_server.Room.State.{Room, RoomWorld}
use samurai_kirby_server.Room.Ticks.{tick}
use samurai_kirby_server.Room.Validity.{IsValid, DrawsInRange}
use samurai_kirby_server.Room.Safety.{tick-Succeeds, same_random-DrawsInRange}
use samurai_kirby_server.Room.Input.{input_of, tick-input}
use samurai_kirby_server.RoomManager.{Lobby, Place, tick_rooms, tick_all_rooms}
use samurai_kirby_server.RoomManager.Places.{rooms_of, All-replace, All-drop, All-found}

abbrev pub AreValid : List Room → Type 0
AreValid = All IsValid

pub AreValid-replace :
    (p : Place) (rooms : List Room) (r : Room)
    → rooms ≡ rooms_of p
    → AreValid rooms
    → IsValid r
    → AreValid (p.before ++ r ∷ p.after)
AreValid-replace = All-replace IsValid

pub AreValid-drop :
    (p : Place) (rooms : List Room)
    → rooms ≡ rooms_of p
    → AreValid rooms
    → AreValid (p.before ++ p.after)
AreValid-drop = All-drop IsValid

pub found-IsValid :
    (p : Place) (rooms : List Room) → rooms ≡ rooms_of p → AreValid rooms → IsValid p.room
found-IsValid = All-found IsValid

-- A round of ticks.
record TicksWell (rooms : List Room) (e : Environment) : Type 0 where
  pub returned : (tick_rooms rooms e).result ≡ ok tt
  pub valid : AreValid (tick_rooms rooms e).rooms
  pub input : input_of (tick_rooms rooms e).env ≡ input_of e

tick_rooms-TicksWell :
    (rooms : List Room) (e : Environment) → DrawsInRange e → AreValid rooms → TicksWell rooms e
unfolding tick_rooms
tick_rooms-TicksWell [] e h a = record { returned = refl; valid = tt; input = refl }
tick_rooms-TicksWell (r ∷ rest) e h (here, a) =
    let w : RoomWorld = record { room = r; env = e } in
    let first = tick-Succeeds w h here in
    let later =
      tick_rooms-TicksWell rest (tick w).1.env
        (same_random-DrawsInRange e (tick w).1.env first.same_random h) a in
    record {
      returned = rw (first.returned, tick_rooms) later.returned;
      valid = rw (first.returned, tick_rooms) (first.valid, later.valid);
      input = rw (first.returned, tick_rooms) (later.input ∙ tick-input w);
    }

pub record TicksAll (l : Lobby) : Type 0 where
  pub returned : (tick_all_rooms l).0 ≡ ok tt
  pub valid : AreValid (tick_all_rooms l).1.rooms
  pub input : input_of (tick_all_rooms l).1.env ≡ input_of l.env

pub tick_all_rooms-TicksAll : (l : Lobby) → DrawsInRange l.env → AreValid l.rooms → TicksAll l
unfolding tick_all_rooms
tick_all_rooms-TicksAll l h a =
    let t = tick_rooms-TicksWell l.rooms l.env h a in
    record { returned = t.returned; valid = t.valid; input = t.input }
