-- ===== src/Room/Mailbox.antt =====
-- Who receives what a room publishes: the queues of gameplayMessagesByPlayerId.
use samurai_kirby_server.Prelude.{
  ℕ, ◌≡◌, sym, ◌∙◌, ap, List, [], ◌∷◌, ◌++◌, Option, none, some, ◌==◌, if◌then◌else◌, arith,
}
use samurai_kirby_server.Prelude.UnorderedMap
use mathlib.Core.List.{append-nil, append_assoc}
use samurai_kirby_server.Player.{Player}
use samurai_kirby_server.Messages.{GameplayMessage}
use samurai_kirby_server.Environment.{Environment, publish_gameplay_message}
use samurai_kirby_server.Room.State.{Room, RoomWorld, notify, broadcast_gameplay_message}

-- The messages that wait for a player, oldest first.
abbrev pub mailbox : ℕ → Environment → List GameplayMessage
mailbox id e = UnorderedMap.at [] id e.hub.gameplay_messages_by_player_id

abbrev pub copy_for : ℕ → Option Player → GameplayMessage → List GameplayMessage
copy_for id none m = []
copy_for id (some p) m = if p.id == id then m ∷ [] else []

-- What a broadcast to the room puts at the end of the mailbox of `id`.
abbrev pub delivered : ℕ → Room → GameplayMessage → List GameplayMessage
delivered id r m = copy_for id r.player1 m ++ copy_for id r.player2 m

pub mailbox-publish :
    (id to : ℕ) (m : GameplayMessage) (e : Environment)
    → mailbox id (publish_gameplay_message to m e)
      ≡ mailbox id e ++ (if to == id then m ∷ [] else [])
unfolding publish_gameplay_message
mailbox-publish id to m e = ground (
  arith,
  UnorderedMap.at-update [] to id (λ q. q ++ m ∷ []) e.hub.gameplay_messages_by_player_id,
  append-nil (mailbox id e),
)

pub mailbox-notify :
    (id : ℕ) (p : Option Player) (m : GameplayMessage) (e : Environment)
    → mailbox id (notify p m e) ≡ mailbox id e ++ copy_for id p m
unfolding notify
mailbox-notify id none m e = sym (append-nil (mailbox id e))
mailbox-notify id (some p) m e = mailbox-publish id p.id m e

pub mailbox-broadcast :
    (id : ℕ) (m : GameplayMessage) (w : RoomWorld)
    → mailbox id (broadcast_gameplay_message m w).1.env ≡ mailbox id w.env ++ delivered id w.room m
unfolding broadcast_gameplay_message
mailbox-broadcast id m w =
    mailbox-notify id w.room.player2 m (notify w.room.player1 m w.env)
    ∙ ap (λ q. q ++ copy_for id w.room.player2 m) (mailbox-notify id w.room.player1 m w.env)
    ∙ append_assoc (mailbox id w.env) _ _
