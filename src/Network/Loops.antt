-- ===== src/Network/Loops.antt =====
-- The loops of NetworkMessageBroker::dispatchMessages of messages/NetworkMessageBroker.cpp as they are
-- written: each test looks into the hub again. On fuel; the result says whether each loop was ended
-- by its test.
use samurai_kirby_server.Prelude.{ℕ, zero, suc, Bool, true, false, List, [], ◌∷◌, ◌&&◌, pop}
use samurai_kirby_server.Prelude.UnorderedMap
use samurai_kirby_server.Exec.{Exec, pure, gets, ◌>>=◌, ◌>>◌}
use samurai_kirby_server.Messages.{GameplayMessage}
use samurai_kirby_server.Serializer.Interface.{Serializer}
use samurai_kirby_server.Network.{
  NetworkMessageBroker, Server, on_broker, queue_of, set_queue, call,
}

abbrev pub pop_message : ℕ → NetworkMessageBroker → NetworkMessageBroker
pop_message player_id b = record b {
  message_hub = record b.message_hub {
    gameplay_messages_by_player_id =
        UnorderedMap.update [] player_id pop b.message_hub.gameplay_messages_by_player_id;
  };
}

module _ (S : Serializer) where
  -- The body of the inner loop, given the queue that its test finds and the loop that comes after.
  abbrev pub messages_body :
      Exec (Server S.Text) Bool → ℕ → ℕ → List GameplayMessage → Exec (Server S.Text) Bool
  messages_body again player_id client_id [] = pure true
  messages_body again player_id client_id (message ∷ _) = do
    call S client_id message
    on_broker (pop_message player_id)
    again

  unfoldable pub messages_loop : ℕ → ℕ → ℕ → Exec (Server S.Text) Bool
  messages_loop zero player_id client_id = pure false
  messages_loop (suc fuel) player_id client_id = do
    queue ← gets (queue_of player_id)
    messages_body (messages_loop fuel player_id client_id) player_id client_id queue

  -- The `for` loop. `operator[]` makes the queue of a player that has none.
  unfoldable pub callbacks_loop : ℕ → List (ℕ × ℕ) → Exec (Server S.Text) Bool
  unfolding messages_loop
  callbacks_loop fuel [] = pure true
  callbacks_loop fuel ((player_id, client_id) ∷ rest) = do
    queue ← gets (queue_of player_id)
    on_broker (set_queue player_id queue)
    ended ← messages_loop fuel player_id client_id
    later ← callbacks_loop fuel rest
    pure (ended && later)

  unfoldable pub broker_loops : ℕ → Exec (Server S.Text) Bool
  unfolding callbacks_loop
  broker_loops fuel s = callbacks_loop fuel s.message_broker.gameplay_message_callbacks s
