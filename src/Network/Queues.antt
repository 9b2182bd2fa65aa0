-- ===== src/Network/Queues.antt =====
-- What a dispatch of the network's broker delivers to all clients.
use mathlib.Core.List.{append-nil, append_assoc}
use samurai_kirby_server.Prelude.{
  ℕ, suc, ◌≤◌, ◌<◌, some, Bool, true, false, ◌||◌, List, [], ◌∷◌, ◌++◌, ◌≡◌, refl, sym, ap, ◌∙◌,
  arith, ◌==◌, All, All-map, All-zip,
}
use samurai_kirby_server.Exec.{ok, err, Result, Exec, continue, is_ok}
use samurai_kirby_server.Serializer.Interface.{Serializer}
use samurai_kirby_server.Sockets.{Call}
use samurai_kirby_server.Network.{
  Server, ConnectedClient, find_client, queue_of, deliver, dispatch_callbacks, dispatch_messages,
}
use samurai_kirby_server.Network.Delivery.{
  AreTexts, sends, with_queue, queue_of-with_queue, IsDelivered, deliver-IsDelivered,
}
use samurai_kirby_server.Network.Clients.{entries, Ascending, AllLive}
use samurai_kirby_server.Network.Invariant.{IsServing}

abbrev pub is_among : ℕ → List ConnectedClient → Bool
is_among j [] = false
is_among j (c ∷ rest) = c.id == j || is_among j rest

not-is_among :
    (j k n : ℕ) (cs : List ConnectedClient) → j < k → Ascending k cs n → is_among j cs ≡ false
not-is_among j k n [] lt up = refl
not-is_among j k n (c ∷ rest) lt (least, up) =
    ground (arith, not-is_among j (suc c.id) n rest (omega arith) up)

above : (k n : ℕ) (cs : List ConnectedClient) → Ascending k cs n → All (λ c. k ≤ c.id) cs
above k n [] up = tt
above k n (c ∷ rest) (least, up) = (
  least,
  All-map (λ d. suc c.id ≤ d.id) (λ d. k ≤ d.id) rest (λ d h. omega arith)
      (above (suc c.id) n rest up),
)

find_client_self :
    (k n : ℕ) (cs : List ConnectedClient)
    → Ascending k cs n
    → All (λ c. find_client c.id cs ≡ some c) cs
find_client_self k n [] up = tt
find_client_self k n (c ∷ rest) (least, up) = (
  ground arith,
  All-map (λ d. (suc c.id ≤ d.id) × (find_client d.id rest ≡ some d))
      (λ d. find_client d.id (c ∷ rest) ≡ some d) rest (λ d h. ground (arith, h.0, h.1))
      (All-zip _ _ rest (above (suc c.id) n rest up) (find_client_self (suc c.id) n rest up)),
)

module _ (S : Serializer) (texts : ℕ → List S.Text) where
  -- The texts of each client, one client after the other.
  abbrev pub all_sends : List ConnectedClient → List (Call S.Text)
  all_sends [] = []
  all_sends (c ∷ rest) = sends S c (texts c.id) ++ all_sends rest

  abbrev pub HaveTexts : List ConnectedClient → Server S.Text → Type 0
  HaveTexts cs s = All (λ c. AreTexts S (queue_of c.id s) (texts c.id)) cs

  -- The server after the queues of the clients `cs` have been sent.
  pub record AreDelivered (cs : List ConnectedClient) (before after : Server S.Text) : Type 0 where
    pub calls : after.system.calls ≡ before.system.calls ++ all_sends cs
    pub queues : All (λ c. queue_of c.id after ≡ []) cs
    pub others : (j : ℕ) → is_among j cs ≡ false → queue_of j after ≡ queue_of j before
    pub clients : after.connected_clients ≡ before.connected_clients

  continue-AreDelivered :
      (c : ConnectedClient) (cs : List ConnectedClient) (n : ℕ) (s : Server S.Text)
      (o : Result (Unit {0}) × Server S.Text) (k : Exec (Server S.Text) (Unit {0}))
      → Ascending (suc c.id) cs n
      → (is_ok o.0 ≡ true) × IsDelivered S c.id c (texts c.id) s o.1
      → ((t : Server S.Text)
          → IsDelivered S c.id c (texts c.id) s t
          → (is_ok (k t).0 ≡ true) × AreDelivered cs t (k t).1)
      → (is_ok (continue o.0 o.1 (λ _. k)).0 ≡ true)
        × AreDelivered (c ∷ cs) s (continue o.0 o.1 (λ _. k)).1
  continue-AreDelivered c cs n s (ok a, t) k up (_, d) later =
      let rest = later t d in
      (
        rest.0,
        record {
          calls =
              rest.1.calls
              ∙ ap (λ l. l ++ all_sends cs) d.calls
              ∙ append_assoc s.system.calls (sends S c (texts c.id)) (all_sends cs);
          queues = (
            rest.1.others c.id (not-is_among c.id (suc c.id) n cs (omega arith) up) ∙ d.queue,
            rest.1.queues,
          );
          others = λ j h. rest.1.others j (ground arith) ∙ d.others j (ground arith);
          clients = rest.1.clients ∙ d.clients;
        },
      )
  continue-AreDelivered c cs n s (err e, t) k up (bad, d) later = cc

  -- One round of the loop over the callbacks: `queue` is looked up, and delivered.
  entry-IsDelivered :
      (c : ConnectedClient) (s : Server S.Text)
      → find_client c.id s.connected_clients ≡ some c
      → c.has_been_disconnected ≡ false
      → AreTexts S (queue_of c.id s) (texts c.id)
      → let o = deliver S c.id c.id (queue_of c.id s) (with_queue c.id (queue_of c.id s) s) in
        (is_ok o.0 ≡ true) × IsDelivered S c.id c (texts c.id) s o.1
  entry-IsDelivered c s found live have =
      let queue = queue_of c.id s in
      let next = with_queue c.id queue s in
      let d =
        deliver-IsDelivered S c.id c queue (texts c.id) next found live
          (queue_of-with_queue c.id c.id queue s ∙ ground arith) have in
      (
        d.0,
        record {
          calls = d.1.calls;
          queue = d.1.queue;
          others = λ j h. d.1.others j h ∙ queue_of-with_queue c.id j queue s ∙ ground arith;
          clients = d.1.clients;
          callbacks = d.1.callbacks;
        },
      )

  HaveTexts-after :
      (c : ConnectedClient) (cs : List ConnectedClient) (s t : Server S.Text)
      → All (λ d. suc c.id ≤ d.id) cs
      → IsDelivered S c.id c (texts c.id) s t
      → HaveTexts cs s
      → HaveTexts cs t
  HaveTexts-after c [] s t up d have = tt
  HaveTexts-after c (e ∷ rest) s t (least, up) d (here, have) =
      (rw (d.others e.id (ground arith)) here, HaveTexts-after c rest s t up d have)

  dispatch_callbacks-AreDelivered :
      (k n : ℕ) (cs : List ConnectedClient) (s : Server S.Text)
      → Ascending k cs n
      → AllLive cs
      → All (λ c. find_client c.id s.connected_clients ≡ some c) cs
      → HaveTexts cs s
      → (is_ok (dispatch_callbacks S (entries cs) s).0 ≡ true)
        × AreDelivered cs s (dispatch_callbacks S (entries cs) s).1
  unfolding dispatch_callbacks
  dispatch_callbacks-AreDelivered k n [] s up live found have = (
    refl,
    record {
      calls = sym (append-nil s.system.calls);
      queues = tt;
      others = λ _ _. refl;
      clients = refl;
    },
  )
  dispatch_callbacks-AreDelivered k n (c ∷ rest) s (least, up) (here, live) (known, found)
        (has, have) =
      continue-AreDelivered c rest n s
        (deliver S c.id c.id (queue_of c.id s) (with_queue c.id (queue_of c.id s) s)) _ up
        (entry-IsDelivered c s known here has)
        λ t d.
          dispatch_callbacks-AreDelivered (suc c.id) n rest t up live (rw d.clients found)
            (HaveTexts-after c rest s t (above (suc c.id) n rest up) d have)

  -- If the server serves and each message that waits for one of its clients has a text, then a
  -- dispatch returns; it has sent to each client the texts of its queue in the order of the queue, one
  -- client after the other and with no other call of the system; the queues of all clients are
  -- empty, and the queues of other ids are as they were.
  pub dispatch_messages-AreDelivered :
      (s : Server S.Text)
      → IsServing s
      → HaveTexts s.connected_clients s
      → (is_ok (dispatch_messages S s).0 ≡ true)
        × AreDelivered s.connected_clients s (dispatch_messages S s).1
  unfolding dispatch_messages
  dispatch_messages-AreDelivered s h have = rw (ap (λ es. dispatch_callbacks S es s) h.callbacks) (
      dispatch_callbacks-AreDelivered 0 s.next_client_id s.connected_clients s h.ascending h.live
        (find_client_self 0 s.next_client_id s.connected_clients h.ascending) have)
