-- ===== src/Network/Delivery.antt =====
-- What NetworkMessageBroker::dispatchMessages does with a player's queue.
use mathlib.Core.List.{append-nil, append_assoc}
use samurai_kirby_server.Prelude.{
  ℕ, some, true, false, if◌then◌else◌, List, [], ◌∷◌, ◌++◌, map, ◌≡◌, refl, sym, ◌∙◌, arith, ◌==◌,
}
use samurai_kirby_server.Prelude.UnorderedMap.{at-update}
use samurai_kirby_server.Exec.{ok, is_ok}
use samurai_kirby_server.Messages.{GameplayMessage}
use samurai_kirby_server.Serializer.{done}
use samurai_kirby_server.Serializer.Interface.{Serializer}
use samurai_kirby_server.Sockets.{Call, send, called}
use samurai_kirby_server.Sockets.Client.{send_text}
use samurai_kirby_server.Network.{
  Server, ConnectedClient, find_client, handle_gameplay_message, call, set_queue, queue_of, deliver,
}

module _ {Text : Type 0} where
  abbrev pub with_queue : ℕ → List GameplayMessage → Server Text → Server Text
  with_queue player_id ms s = record s { message_broker = set_queue player_id ms s.message_broker }

  pub queue_of-with_queue :
      (player_id j : ℕ) (ms : List GameplayMessage) (s : Server Text)
      → queue_of j (with_queue player_id ms s) ≡ (if player_id == j then ms else queue_of j s)
  queue_of-with_queue player_id j ms s =
      at-update [] player_id j (λ _. ms) s.message_broker.message_hub.gameplay_messages_by_player_id

module _ (S : Serializer) where
  -- Each message of a queue is serialized to the text at its place.
  unfoldable pub AreTexts : List GameplayMessage → List S.Text → Type 0
  AreTexts [] [] = Unit {0}
  AreTexts (m ∷ ms) (t ∷ ts) = (S.serialize m ≡ done t) × AreTexts ms ts
  AreTexts [] (_ ∷ _) = ⊥
  AreTexts (_ ∷ _) [] = ⊥

  -- The calls of `send` that give texts to a client.
  abbrev pub sends : ConnectedClient → List S.Text → List (Call S.Text)
  sends c ts = map (λ t. send c.client_socket.descriptor t) ts

  -- The state `after` when the texts have gone to a client, and its queue is empty.
  pub record IsDelivered (player_id : ℕ) (c : ConnectedClient) (ts : List S.Text)
      (before after : Server S.Text) : Type 0 where
    pub calls : after.system.calls ≡ before.system.calls ++ sends c ts
    pub queue : queue_of player_id after ≡ []
    pub others : (j : ℕ) → (player_id == j) ≡ false → queue_of j after ≡ queue_of j before
    pub clients : after.connected_clients ≡ before.connected_clients
    pub callbacks :
        after.message_broker.gameplay_message_callbacks
        ≡ before.message_broker.gameplay_message_callbacks

  abbrev sent_to : ConnectedClient → S.Text → Server S.Text → Server S.Text
  sent_to c t s = record s { system = called (send c.client_socket.descriptor t) s.system }

  call-Sends :
      (c : ConnectedClient) (m : GameplayMessage) (t : S.Text) (s : Server S.Text)
      → find_client c.id s.connected_clients ≡ some c
      → c.has_been_disconnected ≡ false
      → S.serialize m ≡ done t
      → call S c.id m s ≡ (ok tt, sent_to c t s)
  unfolding call handle_gameplay_message send_text
  call-Sends c m t s found live text = ground arith

  -- If a player's callback belongs to a client that is connected, and each message of the player's
  -- queue has a text, then the dispatch of that queue returns, has sent those texts to that client in
  -- the order of the queue with no other call of the system, and has emptied the queue and no other.
  pub deliver-IsDelivered :
      (player_id : ℕ) (c : ConnectedClient) (ms : List GameplayMessage) (ts : List S.Text)
      (s : Server S.Text)
      → find_client c.id s.connected_clients ≡ some c
      → c.has_been_disconnected ≡ false
      → queue_of player_id s ≡ ms
      → AreTexts ms ts
      → (is_ok (deliver S player_id c.id ms s).0 ≡ true)
        × IsDelivered player_id c ts s (deliver S player_id c.id ms s).1
  unfolding deliver AreTexts
  deliver-IsDelivered player_id c [] [] s found live queued texts = (
    refl,
    record {
      calls = sym (append-nil s.system.calls);
      queue = queued;
      others = λ _ _. refl;
      clients = refl;
      callbacks = refl;
    },
  )
  deliver-IsDelivered player_id c (m ∷ ms) (t ∷ ts) s found live queued (text, texts) =
      let sent = sent_to c t s in
      let next = with_queue player_id ms sent in
      let later =
        deliver-IsDelivered player_id c ms ts next found live
          (queue_of-with_queue player_id player_id ms sent ∙ ground arith) texts in
      rw (call-Sends c m t s found live text) (
        later.0,
        record {
          calls =
              later.1.calls
              ∙ append_assoc s.system.calls (send c.client_socket.descriptor t ∷ []) (sends c ts);
          queue = later.1.queue;
          others = λ j other.
              later.1.others j other ∙ queue_of-with_queue player_id j ms sent ∙ ground arith;
          clients = later.1.clients;
          callbacks = later.1.callbacks;
        },
      )
  deliver-IsDelivered player_id c [] (t ∷ ts) s found live queued texts = absurd texts
  deliver-IsDelivered player_id c (m ∷ ms) [] s found live queued texts = absurd texts
