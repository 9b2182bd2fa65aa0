-- ===== src/Network/Quiet.antt =====
-- What a dispatch of the network's broker leaves in the hub for an id that it has no callback for.
use samurai_kirby_server.Prelude.{
  ℕ, suc, ◌≤◌, ◌≡◌, refl, sym, ◌∙◌, subst, false, List, [], ◌∷◌, All, ◌==◌, arith,
}
use samurai_kirby_server.Prelude.UnorderedMap.{at}
use samurai_kirby_server.Exec.{Exec, Result, ok, err, continue}
use samurai_kirby_server.Messages.{GameplayMessage}
use samurai_kirby_server.Environment.{MessageHub}
use samurai_kirby_server.Serializer.Interface.{Serializer}
use samurai_kirby_server.Network.{
  Server, ConnectedClient, call, deliver, dispatch_callbacks, dispatch_messages, queue_of,
}
use samurai_kirby_server.Network.Clients.{entries, Ascending, Ascending-bound}
use samurai_kirby_server.Network.Delivery.{with_queue, queue_of-with_queue}
use samurai_kirby_server.Network.Termination.{call-broker}

-- Nothing waits in the hub that is for the id `j`, comes from it, or is about it.
pub record IsQuiet (j : ℕ) (hub : MessageHub) : Type 0 where
  pub mail : at [] j hub.gameplay_messages_by_player_id ≡ []
  pub actions : at [] j hub.player_action_messages_by_player_id ≡ []
  pub connections : All (λ m. (m.player_id == j) ≡ false) hub.player_connectivity_messages

pub entries-others :
    (j k n : ℕ) (cs : List ConnectedClient)
    → n ≤ j
    → Ascending k cs n
    → All (λ (e : ℕ × ℕ). (e.0 == j) ≡ false) (entries cs)
entries-others j k n [] le up = tt
entries-others j k n (c ∷ rest) le (least, up) =
    (ground (arith, Ascending-bound (suc c.id) n rest up), entries-others j (suc c.id) n rest le up)

module _ {Text : Type 0} where
  abbrev pub QuietIn : ℕ → Server Text → Type 0
  QuietIn j s = IsQuiet j s.message_broker.message_hub

  with_queue-QuietIn :
      (j id : ℕ) (queue : List GameplayMessage) (s : Server Text)
      → (id == j) ≡ false
      → QuietIn j s
      → QuietIn j (with_queue id queue s)
  with_queue-QuietIn j id queue s o h = record {
    mail = queue_of-with_queue id j queue s ∙ rw o h.mail;
    actions = h.actions;
    connections = h.connections;
  }

  continue-QuietIn :
      (j : ℕ) (o : Result (Unit {0}) × Server Text) (k : Exec (Server Text) (Unit {0}))
      → QuietIn j o.1
      → (o.0 ≡ ok tt → QuietIn j (k o.1).1)
      → QuietIn j (continue o.0 o.1 (λ _. k)).1
  continue-QuietIn j (ok a, t) k h later = later refl
  continue-QuietIn j (err x, t) k h later = h

module _ (S : Serializer) where
  deliver-QuietIn :
      (j player_id id : ℕ) (queue : List GameplayMessage) (s : Server S.Text)
      → (player_id == j) ≡ false
      → QuietIn j s
      → QuietIn j (deliver S player_id id queue s).1
  unfolding deliver
  deliver-QuietIn j player_id id [] s o h = h
  deliver-QuietIn j player_id id (m ∷ rest) s o h =
      let t = (call S id m s).1 in
      let now = subst (λ b. IsQuiet j b.message_hub) (sym (call-broker S id m s)) h in
      continue-QuietIn j (call S id m s) _ now λ _.
        deliver-QuietIn j player_id id rest (with_queue player_id rest t) o
          (with_queue-QuietIn j player_id rest t o now)

  dispatch_callbacks-QuietIn :
      (j : ℕ) (es : List (ℕ × ℕ)) (s : Server S.Text)
      → All (λ (e : ℕ × ℕ). (e.0 == j) ≡ false) es
      → QuietIn j s
      → QuietIn j (dispatch_callbacks S es s).1
  unfolding dispatch_callbacks
  dispatch_callbacks-QuietIn j [] s others h = h
  dispatch_callbacks-QuietIn j ((player_id, id) ∷ es) s (o, others) h =
      let queue = queue_of player_id s in
      let first = with_queue player_id queue s in
      let now =
        deliver-QuietIn j player_id id queue first o (with_queue-QuietIn j player_id queue s o h) in
      continue-QuietIn j (deliver S player_id id queue first) _ now
        λ _. dispatch_callbacks-QuietIn j es (deliver S player_id id queue first).1 others now

  pub dispatch_messages-QuietIn :
      (j : ℕ) (s : Server S.Text)
      → All (λ (e : ℕ × ℕ). (e.0 == j) ≡ false) s.message_broker.gameplay_message_callbacks
      → QuietIn j s
      → QuietIn j (dispatch_messages S s).1
  unfolding dispatch_messages
  dispatch_messages-QuietIn j s others h =
      dispatch_callbacks-QuietIn j s.message_broker.gameplay_message_callbacks s others h
