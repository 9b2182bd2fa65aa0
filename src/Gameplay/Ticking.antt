-- ===== src/Gameplay/Ticking.antt =====
-- RoomManager::tickAllRooms leaves the rooms' addresses and the callbacks that lead to them.
use samurai_kirby_server.Prelude.{ℕ, ◌≡◌, refl, sym, ◌∙◌, subst, List, [], ◌∷◌}
use samurai_kirby_server.Environment.{Environment}
use samurai_kirby_server.Room.State.{Room, RoomWorld}
use samurai_kirby_server.Room.Ticks.{tick}
use samurai_kirby_server.Room.Validity.{DrawsInRange}
use samurai_kirby_server.Room.Safety.{tick-Succeeds, same_random-DrawsInRange}
use samurai_kirby_server.Room.Frame.{tick-SameSeats}
use samurai_kirby_server.Room.Input.{tick-subscriptions}
use samurai_kirby_server.RoomManager.{Lobby, tick_rooms, tick_all_rooms}
use samurai_kirby_server.RoomManager.Validity.{AreValid, tick_all_rooms-TicksAll}
use samurai_kirby_server.Gameplay.Links.{has_room, IsLinked, IsLinked-Grows, Grows}
use samurai_kirby_server.Gameplay.Staying.{Linked, Stays}

-- A round of ticks leaves the addresses and the callbacks.
record TicksSame (rooms : List Room) (e : Environment) : Type 0 where
  pub addresses : (a : ℕ) → has_room a (tick_rooms rooms e).rooms ≡ has_room a rooms
  pub subscriptions : (tick_rooms rooms e).env.subscriptions ≡ e.subscriptions

tick_rooms-TicksSame :
    (rooms : List Room) (e : Environment) → DrawsInRange e → AreValid rooms → TicksSame rooms e
unfolding tick_rooms
tick_rooms-TicksSame [] e h a = record { addresses = λ _. refl; subscriptions = refl }
tick_rooms-TicksSame (r ∷ rest) e h (here, a) =
    let w : RoomWorld = record { room = r; env = e } in
    let first = tick-Succeeds w h here in
    let later =
      tick_rooms-TicksSame rest (tick w).1.env
        (same_random-DrawsInRange e (tick w).1.env first.same_random h) a in
    record {
      addresses = λ b.
          rw (first.returned, tick_rooms) (rw ((tick-SameSeats w).address, later.addresses b) refl);
      subscriptions = rw (first.returned, tick_rooms) (later.subscriptions ∙ tick-subscriptions w);
    }

pub tick_all_rooms-Stays :
    (l : Lobby) → DrawsInRange l.env → AreValid l.rooms → Linked l → Stays l (tick_all_rooms l)
unfolding tick_all_rooms
tick_all_rooms-Stays l h a linked =
    let t = tick_rooms-TicksSame l.rooms l.env h a in
    let grows : Grows l.rooms (tick_rooms l.rooms l.env).rooms = λ b k. t.addresses b ∙ k in
    record {
      returned = (tick_all_rooms-TicksAll l h a).returned;
      linked =
          subst (IsLinked _) (sym t.subscriptions)
            (IsLinked-Grows l.rooms _ l.env.subscriptions grows linked);
      grows = grows;
    }
