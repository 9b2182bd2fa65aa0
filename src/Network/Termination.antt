-- ===== src/Network/Termination.antt =====
-- The loops of NetworkMessageBroker::dispatchMessages come to an end, and do what a pass over the
-- queues does.
use samurai_kirby_server.Prelude.{
  ℕ, zero, suc, ◌<◌, ◌≡◌, refl, ap, ◌∙◌, Option, none, some, Bool, List, [], ◌∷◌, arith, length,
  ◌&&◌, pop, Bool-cases, inl, inr,
}
use samurai_kirby_server.Prelude.UnorderedMap.{at, update-agree}
use samurai_kirby_server.Exec.{Exec, Result, ok, err, continue, pure, ◌>>=◌, ended, then-ended}
use samurai_kirby_server.Messages.{GameplayMessage}
use samurai_kirby_server.Serializer.{Outcome, done, json_exception, not_handled}
use samurai_kirby_server.Serializer.Interface.{Serializer}
use samurai_kirby_server.Sockets.Client.{send_text}
use samurai_kirby_server.Network.{
  Server, ConnectedClient, NetworkMessageBroker, find_client, handle_gameplay_message, call,
  queue_of, set_queue, deliver, dispatch_callbacks, dispatch_messages, send_outcome, call_on,
}
use samurai_kirby_server.Network.Delivery.{with_queue, queue_of-with_queue}
use samurai_kirby_server.Network.Loops.{
  pop_message, messages_body, messages_loop, callbacks_loop, broker_loops,
}

pop_message-eq :
    (id : ℕ) (m : GameplayMessage) (rest : List GameplayMessage) (b : NetworkMessageBroker)
    → at [] id b.message_hub.gameplay_messages_by_player_id ≡ m ∷ rest
    → pop_message id b ≡ set_queue id rest b
pop_message-eq id m rest b h =
    ap (λ q. record b { message_hub = record b.message_hub { gameplay_messages_by_player_id = q } })
      (update-agree [] id pop (λ _. rest) b.message_hub.gameplay_messages_by_player_id (ap pop h))

module _ {Text : Type 0} where
  -- Each queue is shorter than `n`.
  abbrev pub AreShort : ℕ → Server Text → Type 0
  AreShort n s = (j : ℕ) → length (queue_of j s) < n

  -- After a callback that has left the broker alone, the loop and the pass go on alike.
  alike :
      (id : ℕ) (m : GameplayMessage) (rest : List GameplayMessage) (s : Server Text)
      (o : Result (Unit {0}) × Server Text) (loop : Exec (Server Text) Bool)
      (pass : Exec (Server Text) (Unit {0}))
      → o.1.message_broker ≡ s.message_broker
      → queue_of id s ≡ m ∷ rest
      → ((t : Server Text) → loop (with_queue id rest t) ≡ ended (pass (with_queue id rest t)))
      → continue o.0 o.1
          (λ _ t. loop (record t { message_broker = pop_message id t.message_broker }))
        ≡ ended (continue o.0 o.1 (λ _ t. pass (with_queue id rest t)))
  alike id m rest s (ok a, t) loop pass kept waiting same =
      ap (λ b. loop (record t { message_broker = b }))
        (pop_message-eq id m rest t.message_broker
          (ap (λ b. at [] id b.message_hub.gameplay_messages_by_player_id) kept ∙ waiting))
      ∙ same t
  alike id m rest s (err x, t) loop pass kept waiting same = refl

module _ (S : Serializer) where
  send_outcome-broker :
      (c : ConnectedClient) (o : Outcome S.Text) (s : Server S.Text)
      → (send_outcome S c.client_socket o s).1.message_broker ≡ s.message_broker
  unfolding send_text
  send_outcome-broker c (done t) s = refl
  send_outcome-broker c json_exception s = refl
  send_outcome-broker c not_handled s = refl

  handle_gameplay_message-broker :
      (c : ConnectedClient) (m : GameplayMessage) (s : Server S.Text)
      → (handle_gameplay_message S c m s).1.message_broker ≡ s.message_broker
  unfolding handle_gameplay_message
  handle_gameplay_message-broker c m s = elim (Bool-cases c.has_been_disconnected) [
    | inl e ↦ rw e refl
    | inr e ↦ rw e (send_outcome-broker c (S.serialize m) s)
  ]

  call_on-broker :
      (c : Option ConnectedClient) (m : GameplayMessage) (s : Server S.Text)
      → (call_on S c m s).1.message_broker ≡ s.message_broker
  call_on-broker none m s = refl
  call_on-broker (some c) m s = handle_gameplay_message-broker c m s

  pub call-broker :
      (id : ℕ) (m : GameplayMessage) (s : Server S.Text)
      → (call S id m s).1.message_broker ≡ s.message_broker
  unfolding call
  call-broker id m s = call_on-broker (find_client id s.connected_clients) m s

  messages_loop-ended :
      (n player_id id : ℕ) (queue : List GameplayMessage) (s : Server S.Text)
      → queue_of player_id s ≡ queue
      → length queue < n
      → messages_loop S n player_id id s ≡ ended (deliver S player_id id queue s)
  unfolding messages_loop deliver
  messages_loop-ended zero player_id id queue s waiting enough = absurd (omega arith)
  messages_loop-ended (suc n) player_id id [] s waiting enough =
      ap (λ q. messages_body S (messages_loop S n player_id id) player_id id q s) waiting
  messages_loop-ended (suc n) player_id id (m ∷ rest) s waiting enough =
      ap (λ q. messages_body S (messages_loop S n player_id id) player_id id q s) waiting
      ∙ alike player_id m rest s (call S id m s) (messages_loop S n player_id id)
          (deliver S player_id id rest) (call-broker id m s) waiting
          λ t.
            messages_loop-ended n player_id id rest (with_queue player_id rest t)
              (queue_of-with_queue player_id player_id rest t ∙ ground arith)
              (omega (arith, enough))

  continue-AreShort :
      (n : ℕ) (o : Result (Unit {0}) × Server S.Text) (k : Exec (Server S.Text) (Unit {0}))
      → AreShort n o.1
      → (AreShort n o.1 → AreShort n (k o.1).1)
      → AreShort n (continue o.0 o.1 (λ _. k)).1
  continue-AreShort n (ok a, t) k short later = later short
  continue-AreShort n (err x, t) k short later = short

  with_queue-AreShort :
      (n id : ℕ) (queue : List GameplayMessage) (s : Server S.Text)
      → length queue < n
      → AreShort n s
      → AreShort n (with_queue id queue s)
  with_queue-AreShort n id queue s enough short j =
      rw (queue_of-with_queue id j queue s) (ground (arith, enough, short j))

  deliver-AreShort :
      (n player_id id : ℕ) (queue : List GameplayMessage) (s : Server S.Text)
      → length queue < n
      → AreShort n s
      → AreShort n (deliver S player_id id queue s).1
  unfolding deliver
  deliver-AreShort n player_id id [] s enough short = short
  deliver-AreShort n player_id id (m ∷ rest) s enough short =
      continue-AreShort n (call S id m s) _
        (λ j.
          rw (ap (λ b. at [] j b.message_hub.gameplay_messages_by_player_id) (call-broker id m s))
            (short j))
        λ kept.
          deliver-AreShort n player_id id rest (with_queue player_id rest (call S id m s).1)
            (omega (arith, enough))
            (with_queue-AreShort n player_id rest (call S id m s).1 (omega (arith, enough)) kept)

  callbacks_loop-ended :
      (n : ℕ) (es : List (ℕ × ℕ)) (s : Server S.Text)
      → AreShort n s
      → callbacks_loop S n es s ≡ ended (dispatch_callbacks S es s)
  unfolding callbacks_loop dispatch_callbacks
  callbacks_loop-ended n [] s short = refl
  callbacks_loop-ended n ((player_id, id) ∷ rest) s short =
      let queue = queue_of player_id s in
      let first = with_queue player_id queue s in
      ap
        (λ (o : Result Bool × Server S.Text).
          continue o.0 o.1 (λ b. callbacks_loop S n rest >>= λ later. pure (b && later)))
        (messages_loop-ended n player_id id queue first
          (queue_of-with_queue player_id player_id queue s ∙ ground arith) (short player_id))
      ∙ then-ended (deliver S player_id id queue first) (callbacks_loop S n rest)
          (dispatch_callbacks S rest)
          λ _. callbacks_loop-ended n rest (deliver S player_id id queue first).1 (
            deliver-AreShort n player_id id queue first (short player_id)
              (with_queue-AreShort n player_id queue s (short player_id) short))

  -- Let `n` be more than the number of messages that wait for any player. Then the loops of
  -- NetworkMessageBroker::dispatchMessages, each with `n` rounds at its disposal, come to an
  -- end by their tests, though each test looks into the hub after the callback; and they do
  -- what one pass over the queues does, whatever it throws included.
  pub broker_loops-ended :
      (n : ℕ) (s : Server S.Text)
      → AreShort n s
      → broker_loops S n s ≡ ended (dispatch_messages S s)
  unfolding broker_loops dispatch_messages
  broker_loops-ended n s short =
      callbacks_loop-ended n s.message_broker.gameplay_message_callbacks s short
