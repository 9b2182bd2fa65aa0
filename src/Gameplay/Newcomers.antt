-- ===== src/Gameplay/Newcomers.antt =====
-- A dispatch that finds a new player and the message that it joins.
pub mod Batches
use samurai_kirby_server.Prelude.{
  ℕ, String, ◌≡◌, refl, ap, ◌∙◌, some, true, false, List, [], ◌∷◌, ◌++◌, map, All, subst, ◌==◌,
  if◌then◌else◌, arith,
}
use samurai_kirby_server.Prelude.UnorderedMap.{update, at, at-update}
use samurai_kirby_server.Exec.{ok, is_ok}
use samurai_kirby_server.Player.{GameDifficulty}
use samurai_kirby_server.Messages.{
  join_game, connect, PlayerActionMessage, PlayerConnectivityMessage,
}
use samurai_kirby_server.Environment.{
  Environment, gameplay_callback, Subscription, manager_callback, gameplay,
  subscribe_to_player_action_messages,
}
use samurai_kirby_server.RoomManager.{Lobby, add_player_to_room}
use samurai_kirby_server.RoomManager
use samurai_kirby_server.RoomManager.Welcome.{IsWelcomed, add_player_to_room-IsWelcomed}
use samurai_kirby_server.Room.Mailbox.{mailbox}
use samurai_kirby_server.Messages.{GameplayMessage}
use samurai_kirby_server.Room.State.{Room}
use samurai_kirby_server.RoomManager.Soundness.{AreLive, add_player_to_room-Preserves}
use samurai_kirby_server.RoomManager.Matchmaking.{IsMatched, add_player_to_room-IsMatched}
use samurai_kirby_server.Gameplay.{
  set_connectivity, set_actions, actions_of, dispatch_actions, dispatch_connectivity,
  dispatch_messages, deliver, call_all, call, handle_player_connectivity_message,
}
use samurai_kirby_server.Gameplay.Subscriptions.{listeners, manager_subscription}

actions_of-set_actions :
    (id j : ℕ) (queue : List PlayerActionMessage) (e : Environment)
    → actions_of j (set_actions id queue e) ≡ (if id == j then queue else actions_of j e)
actions_of-set_actions id j queue e =
    at-update [] id j (λ _. queue) e.hub.player_action_messages_by_player_id

-- The players `keys` are others than `id`, and have no action waiting.
abbrev AreQuiet : ℕ → List ℕ → Environment → Type 0
AreQuiet id keys e = All (λ j. ((j == id) ≡ false) × (actions_of j e ≡ [])) keys

AreQuiet-set_actions :
    (id k : ℕ) (keys : List ℕ) (e : Environment)
    → AreQuiet id keys e
    → AreQuiet id keys (set_actions k [] e)
AreQuiet-set_actions id k [] e q = q
AreQuiet-set_actions id k (j ∷ rest) e ((other, empty), q) =
    ((other, actions_of-set_actions k j [] e ∙ ground arith), AreQuiet-set_actions id k rest e q)

-- What a dispatch to quiet players leaves for `id`.
record Skips (id : ℕ) (keys : List ℕ) (l : Lobby) : Type 0 where
  pub env : Environment
  pub skipped :
      dispatch_actions (keys ++ id ∷ []) l ≡ dispatch_actions (id ∷ []) (record l { env = env })
  pub subscriptions : env.subscriptions ≡ l.env.subscriptions
  pub actions : actions_of id env ≡ actions_of id l.env
  pub mail : mailbox id env ≡ mailbox id l.env
  pub random : env.random ≡ l.env.random
  pub draws : env.draws ≡ l.env.draws

dispatch_actions-Skips :
    (id : ℕ) (keys : List ℕ) (l : Lobby) → AreQuiet id keys l.env → Skips id keys l
unfolding dispatch_actions deliver
dispatch_actions-Skips id [] l q = record {
  env = l.env;
  skipped = refl;
  subscriptions = refl;
  actions = refl;
  mail = refl;
  random = refl;
  draws = refl;
}
dispatch_actions-Skips id (j ∷ rest) l ((other, empty), q) =
    let next = record l { env = set_actions j [] l.env } in
    let later = dispatch_actions-Skips id rest next (AreQuiet-set_actions id j rest l.env q) in
    record {
      env = later.env;
      skipped = rw empty later.skipped;
      subscriptions = later.subscriptions;
      mail = later.mail;
      random = later.random;
      draws = later.draws;
      actions = later.actions ∙ actions_of-set_actions j id [] l.env ∙ ground arith;
    }

-- The lobby `after` has matched the player `id` to a room and told it so, and no action of it waits
-- any more. Before, `rooms` were there, and `mail` waited for the player.
pub record Joins (id : ℕ) (d : GameDifficulty) (rooms : List Room) (mail : List GameplayMessage)
    (after : Lobby) : Type 0 where
  pub matched : (p : RoomManager.Place) × IsMatched id d rooms after.rooms p
  pub emptied : actions_of id after.env ≡ []
  pub welcomed : IsWelcomed mail (mailbox id after.env)

single-Joins :
    (id : ℕ) (nickname : String) (d : GameDifficulty) (mail : List GameplayMessage) (l : Lobby)
    → listeners id l.env ≡ manager_subscription ∷ []
    → actions_of id l.env ≡ join_game nickname d ∷ []
    → mailbox id l.env ≡ mail
    → AreLive l.rooms
    → (is_ok (dispatch_actions (id ∷ []) l).0 ≡ true)
      × Joins id d l.rooms mail (dispatch_actions (id ∷ []) l).1
unfolding dispatch_actions deliver call_all call RoomManager.handle_player_message
single-Joins id nickname d mail l listening waiting mailed a =
    let next = record l { env = set_actions id (join_game nickname d ∷ []) l.env } in
    let o = add_player_to_room id nickname d next in
    let done : (dispatch_actions (id ∷ []) l)
        ≡ (ok tt, record o.1 { env = set_actions id [] o.1.env }) =
      rw (listening, waiting)
        (rw (add_player_to_room-Preserves id nickname d next a).returned refl) in
    rw done (
      refl,
      record {
        matched = add_player_to_room-IsMatched id nickname d next a;
        emptied = actions_of-set_actions id id [] o.1.env ∙ ground arith;
        welcomed =
            subst (λ m. IsWelcomed m (mailbox id o.1.env)) mailed
              (add_player_to_room-IsWelcomed id nickname d next a);
      },
    )

update-absent :
    {V : Type 0} (v : V) (id : ℕ) (f : V → V) (m : List (ℕ × V))
    → All (λ (e : ℕ × V). (e.0 == id) ≡ false) m
    → map (λ (e : ℕ × V). e.0) (update v id f m) ≡ map (λ (e : ℕ × V). e.0) m ++ id ∷ []
unfolding update
update-absent v id f [] h = refl
update-absent v id f ((j, w) ∷ rest) (other, h) =
    rw other (ap (λ l. j ∷ l) (update-absent v id f rest h))

at-absent :
    {V : Type 0} (v : V) (id : ℕ) (m : List (ℕ × V))
    → All (λ (e : ℕ × V). (e.0 == id) ≡ false) m
    → at v id m ≡ v
unfolding at
at-absent v id [] h = refl
at-absent v id ((j, w) ∷ rest) (other, h) = rw other (at-absent v id rest h)

-- The players that are listened to are others than `id`, and have no action waiting.
abbrev pub OthersAreQuiet : ℕ → Environment → Type 0
OthersAreQuiet id e =
    All (λ (entry : ℕ × List Subscription). ((entry.0 == id) ≡ false) × (actions_of entry.0 e ≡ []))
      e.subscriptions

OthersAreQuiet-keys :
    (id : ℕ) (m : List (ℕ × List Subscription)) (e : Environment)
    → All
        (λ (entry : ℕ × List Subscription). ((entry.0 == id) ≡ false) × (actions_of entry.0 e ≡ []))
        m
    → AreQuiet id (map (λ (entry : ℕ × List Subscription). entry.0) m) e
      × All (λ (entry : ℕ × List Subscription). (entry.0 == id) ≡ false) m
OthersAreQuiet-keys id [] e q = (tt, tt)
OthersAreQuiet-keys id (x ∷ rest) e (h, q) =
    let later = OthersAreQuiet-keys id rest e q in ((h, later.0), (h.0, later.1))

-- The lobby when the connection of `id` has been dispatched.
abbrev connected : ℕ → Lobby → Lobby
connected id l = record l {
  env =
      set_connectivity [] (subscribe_to_player_action_messages id manager_callback gameplay l.env);
}

dispatch_connectivity-connected :
    (id : ℕ) (queue : List PlayerConnectivityMessage) (l : Lobby)
    → l.env.connectivity_callback ≡ some gameplay_callback
    → queue ≡ record { message_type = connect; player_id = id } ∷ []
    → dispatch_connectivity queue l ≡ (ok tt, connected id l)
unfolding dispatch_connectivity handle_player_connectivity_message
dispatch_connectivity-connected id queue l callback arrives = rw arrives (rw callback refl)

-- The lobby in which the actions of a new player are dispatched, after its connection and the queues
-- of the others.
record Comes (id : ℕ) (l : Lobby) : Type 0 where
  pub env : Environment
  pub dispatched : dispatch_messages l ≡ dispatch_actions (id ∷ []) (record l { env = env })
  pub listening : listeners id env ≡ manager_subscription ∷ []
  pub actions : actions_of id env ≡ actions_of id l.env
  pub mail : mailbox id env ≡ mailbox id l.env
  pub random : env.random ≡ l.env.random
  pub draws : env.draws ≡ l.env.draws

newcomer-Comes :
    (id : ℕ) (l : Lobby)
    → l.env.connectivity_callback ≡ some gameplay_callback
    → l.env.hub.player_connectivity_messages
      ≡ record { message_type = connect; player_id = id } ∷ []
    → OthersAreQuiet id l.env
    → Comes id l
unfolding dispatch_messages subscribe_to_player_action_messages
newcomer-Comes id l callback arrives quiet =
    let keys = OthersAreQuiet-keys id l.env.subscriptions l.env quiet in
    let now = connected id l in
    let skips =
      dispatch_actions-Skips id (map (λ (e : ℕ × List Subscription). e.0) l.env.subscriptions) now
        keys.0 in
    record {
      env = skips.env;
      dispatched =
          rw
            (dispatch_connectivity-connected id l.env.hub.player_connectivity_messages l callback
              arrives)
            (ap (λ ks. dispatch_actions ks now) (update-absent [] id _ l.env.subscriptions keys.1)
              ∙ skips.skipped);
      listening =
          ap (at [] id) skips.subscriptions
          ∙ at-update [] id id _ l.env.subscriptions
          ∙ rw (at-absent [] id l.env.subscriptions keys.1) (ground arith);
      actions = skips.actions;
      mail = skips.mail;
      random = skips.random;
      draws = skips.draws;
    }

-- Let the gameplay's callback be subscribed, the connection of a player wait in the hub, and as its
-- only action that it joins; let the players that are listened to be others and have no action
-- waiting, and every room be valid and not empty. Then a dispatch throws
-- nothing and empties the player's queue; the player sits in a room as in
-- `add_player_to_room-IsMatched`; and what waits for the player is what waited before, then the news
-- that it has joined, and then maybe more.
pub newcomer_is_seated :
    (id : ℕ) (nickname : String) (d : GameDifficulty) (l : Lobby)
    → l.env.connectivity_callback ≡ some gameplay_callback
    → l.env.hub.player_connectivity_messages
      ≡ record { message_type = connect; player_id = id } ∷ []
    → actions_of id l.env ≡ join_game nickname d ∷ []
    → OthersAreQuiet id l.env
    → AreLive l.rooms
    → (is_ok (dispatch_messages l).0 ≡ true)
      × Joins id d l.rooms (mailbox id l.env) (dispatch_messages l).1
newcomer_is_seated id nickname d l callback arrives waiting quiet a =
    let comes = newcomer-Comes id l callback arrives quiet in
    rw comes.dispatched (
      single-Joins id nickname d (mailbox id l.env) (record l { env = comes.env }) comes.listening
        (comes.actions ∙ waiting) comes.mail a)
