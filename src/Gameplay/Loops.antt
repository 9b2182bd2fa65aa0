-- ===== src/Gameplay/Loops.antt =====
-- The loops of GameplayMessageBroker::dispatchMessages of messages/GameplayMessageBroker.cpp as they
-- are written: each test looks into the hub again, where a callback may have written. On fuel; the
-- result says whether the loop was ended by its test.
use samurai_kirby_server.Prelude.{ℕ, zero, suc, Bool, true, false, List, [], ◌∷◌, ◌&&◌, pop}
use samurai_kirby_server.Prelude.UnorderedMap
use samurai_kirby_server.Prelude.UnorderedMap.{keys}
use samurai_kirby_server.Exec.{Exec, pure, gets, ◌>>=◌, ◌>>◌}
use samurai_kirby_server.Messages.{PlayerActionMessage, PlayerConnectivityMessage}
use samurai_kirby_server.Environment.{Environment, Subscription}
use samurai_kirby_server.RoomManager.{Lobby}
use samurai_kirby_server.Gameplay.{
  on_env, set_connectivity, set_actions, actions_of, call_connectivity, call_all,
}

abbrev pub pop_connectivity : Environment → Environment
pop_connectivity e = set_connectivity (pop e.hub.player_connectivity_messages) e

abbrev pub pop_actions : ℕ → Environment → Environment
pop_actions player_id e = record e {
  hub = record e.hub {
    player_action_messages_by_player_id =
        UnorderedMap.update [] player_id pop e.hub.player_action_messages_by_player_id;
  };
}

-- The body of the first loop, given the queue that its test finds and the loop that comes after.
abbrev pub connectivity_body : Exec Lobby Bool → List PlayerConnectivityMessage → Exec Lobby Bool
connectivity_body again [] = pure true
connectivity_body again (m ∷ _) = do
  callback ← gets (λ l. l.env.connectivity_callback)
  call_connectivity callback m
  on_env pop_connectivity
  again

unfoldable pub connectivity_loop : ℕ → Exec Lobby Bool
connectivity_loop zero = pure false
connectivity_loop (suc fuel) = do
  queue ← gets (λ l. l.env.hub.player_connectivity_messages)
  connectivity_body (connectivity_loop fuel) queue

abbrev pub actions_body :
    Exec Lobby Bool → List Subscription → ℕ → List PlayerActionMessage → Exec Lobby Bool
actions_body again callbacks player_id [] = pure true
actions_body again callbacks player_id (m ∷ _) = do
  call_all callbacks player_id m
  on_env (pop_actions player_id)
  again

unfoldable pub actions_loop : ℕ → List Subscription → ℕ → Exec Lobby Bool
actions_loop zero callbacks player_id = pure false
actions_loop (suc fuel) callbacks player_id = do
  queue ← gets (λ l. actions_of player_id l.env)
  actions_body (actions_loop fuel callbacks player_id) callbacks player_id queue

-- The `for` loop. `operator[]` makes the queue of a player that has none.
unfoldable pub players_loop : ℕ → List ℕ → Exec Lobby Bool
unfolding actions_loop
players_loop fuel [] = pure true
players_loop fuel (player_id ∷ rest) = do
  callbacks ← gets (λ l. UnorderedMap.at [] player_id l.env.subscriptions)
  on_env (λ e. set_actions player_id (actions_of player_id e) e)
  ended ← actions_loop fuel callbacks player_id
  later ← players_loop fuel rest
  pure (ended && later)

unfoldable pub dispatch_loops : ℕ → Exec Lobby Bool
unfolding connectivity_loop players_loop
dispatch_loops fuel = do
  ended ← connectivity_loop fuel
  players ← gets (λ l. keys l.env.subscriptions)
  later ← players_loop fuel players
  pure (ended && later)
