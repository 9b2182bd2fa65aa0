-- ===== src/Network/Passage.antt =====
-- The network thread with the serializer: what passes between the hub and a client of the contract.
use samurai_kirby_server.Prelude.{
  ℕ, suc, some, true, List, [], ◌∷◌, map, ◌≡◌, refl, sym, ap, All, All-map,
}
use samurai_kirby_server.Exec.{is_ok}
use samurai_kirby_server.Messages.{GameplayMessage, PlayerActionMessage}
use samurai_kirby_server.Json.{JsonLibrary, IsLawful}
use samurai_kirby_server.Serializer.{message_json}
use samurai_kirby_server.Serializer.Interface.{json_serializer}
use samurai_kirby_server.Serializer.Contract.{
  IsWireAction, IsWireMessage, action_json, read_gameplay_message,
}
use samurai_kirby_server.Serializer.Actions.{deserialize-action_json}
use samurai_kirby_server.Serializer.Announcements.{serialize-Reads}
use samurai_kirby_server.Sockets.{returned}
use samurai_kirby_server.Network.{Server, ConnectedClient, queue_of, dispatch_messages}
use samurai_kirby_server.Network.Serving.{receive_from_network}
use samurai_kirby_server.Network.Delivery.{AreTexts}
use samurai_kirby_server.Network.Failures.{
  recv_from, IsRead, read_actions, receive_from_network-IsRead,
}
use samurai_kirby_server.Network.Invariant.{IsServing}
use samurai_kirby_server.Network.Queues.{AreDelivered, dispatch_messages-AreDelivered}

module _ (L : JsonLibrary) (laws : IsLawful L) where
  -- If the bytes that a client's socket gives are the text that a client of the contract dumps of an
  -- action, whose enumeration is an enumerator or another number of 32 bits, and
  -- whose time fits in 32 bits, then reading from it throws nothing, puts this very action at the
  -- end of the client's queue, and changes no other queue.
  pub action_arrives :
      (c : ConnectedClient) (n : ℕ) (m : PlayerActionMessage) (s : Server L.Text)
      → s.system.answer s.system.made (recv_from c) ≡ returned (suc n)
      → L.dump (action_json L m) ≡ some (s.system.bytes s.system.made)
      → IsWireAction m
      → (is_ok (receive_from_network (json_serializer L) c s).0 ≡ true)
        × IsRead c (m ∷ []) s (receive_from_network (json_serializer L) c s).1
  action_arrives c n m s given dumped wire =
      rw
        (ap read_actions
          (sym (deserialize-action_json L laws m (s.system.bytes s.system.made) wire dumped)))
        (receive_from_network-IsRead (json_serializer L) c n s given)

  -- Each message of a queue can be dumped, and the text at its place is what is dumped.
  unfoldable pub AreDumped : List GameplayMessage → List L.Text → Type 0
  AreDumped [] [] = Unit {0}
  AreDumped (m ∷ ms) (t ∷ ts) =
      IsWireMessage m × (L.dump (message_json L m) ≡ some t) × AreDumped ms ts
  AreDumped [] (_ ∷ _) = ⊥
  AreDumped (_ ∷ _) [] = ⊥

  AreDumped-AreTexts :
      (ms : List GameplayMessage) (ts : List L.Text)
      → AreDumped ms ts
      → AreTexts (json_serializer L) ms ts
  unfolding AreDumped AreTexts
  AreDumped-AreTexts [] [] h = tt
  AreDumped-AreTexts (m ∷ ms) (t ∷ ts) (wire, dumped, h) =
      ((serialize-Reads L laws m t wire dumped).0, AreDumped-AreTexts ms ts h)
  AreDumped-AreTexts [] (_ ∷ _) h = absurd h
  AreDumped-AreTexts (_ ∷ _) [] h = absurd h

  AreDumped-read :
      (ms : List GameplayMessage) (ts : List L.Text)
      → AreDumped ms ts
      → map (read_gameplay_message L) ts ≡ map some ms
  unfolding AreDumped
  AreDumped-read [] [] h = refl
  AreDumped-read (m ∷ ms) (t ∷ ts) (wire, dumped, h) =
      rw ((serialize-Reads L laws m t wire dumped).1, AreDumped-read ms ts h) refl
  AreDumped-read [] (_ ∷ _) h = absurd h
  AreDumped-read (_ ∷ _) [] h = absurd h

  -- If the server serves, and the messages that wait for its clients can be dumped, their inputs
  -- being enumerators or other numbers of 32 bits, and their times fit in 32 bits, then a dispatch
  -- returns, empties the queues of all clients, sends to each the texts of its queue and makes no other call of the system; and from the texts that it was
  -- sent a client of the contract reads the messages of its queue, in their order.
  pub announcements_arrive :
      (texts : ℕ → List L.Text) (s : Server L.Text)
      → IsServing s
      → All (λ c. AreDumped (queue_of c.id s) (texts c.id)) s.connected_clients
      → (is_ok (dispatch_messages (json_serializer L) s).0 ≡ true)
        × AreDelivered
            (json_serializer L)
            texts
            s.connected_clients
            s
            (dispatch_messages (json_serializer L) s).1
        × All
            (λ c. map (read_gameplay_message L) (texts c.id) ≡ map some (queue_of c.id s))
            s.connected_clients
  announcements_arrive texts s serves dumped =
      let d = dispatch_messages-AreDelivered (json_serializer L) texts s serves (
        All-map _ _ s.connected_clients (λ c h. AreDumped-AreTexts (queue_of c.id s) (texts c.id) h)
          dumped) in
      (
        d.0,
        d.1,
        All-map _ _ s.connected_clients (λ c h. AreDumped-read (queue_of c.id s) (texts c.id) h)
            dumped,
      )
