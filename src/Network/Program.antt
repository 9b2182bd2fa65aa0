-- ===== src/Network/Program.antt =====
-- The server ahead of its loop: its constructor, and what Server::start does first.
use samurai_kirby_server.Prelude.{ℕ, none, true, ◌≡◌, refl, ap, ◌∙◌, arith}
use samurai_kirby_server.Exec.{
  Result, ok, err, runtime_error, undefined_behaviour, bad_optional_access, bad_function_call,
  serialize_exception, continue,
}
use samurai_kirby_server.Serializer.Interface.{Serializer}
use samurai_kirby_server.Sockets.{System, unix}
use samurai_kirby_server.Sockets.Server.{ServerSocket}
use samurai_kirby_server.Network.{Server}
use samurai_kirby_server.Network.Serving.{keep_socket}
use samurai_kirby_server.Network.Invariant.{IsServing}
use samurai_kirby_server.Network.Serving.{init_network, start_listening, new_server}
use samurai_kirby_server.Sockets.Server.{open_server_socket}
use samurai_kirby_server.Sockets.Opening.{
  is_plain, open_server_socket-is_plain, open_server_socket-api,
}

module _ {Text : Type 0} where
  -- How the server may stand ahead of its loop: it serves, or its socket could not be opened.
  abbrev pub Opens : Result (Unit {0}) × Server Text → Type 0
  Opens (ok a, s) = IsServing s
  Opens (err runtime_error, s) = s.server_socket ≡ none
  Opens (err serialize_exception, s) = ⊥
  Opens (err undefined_behaviour, s) = ⊥
  Opens (err bad_optional_access, s) = ⊥
  Opens (err bad_function_call, s) = ⊥

module _ (S : Serializer) where
  kept-Opens :
      (system : System S.Text) (o : Result ServerSocket × System S.Text)
      → system.api.platform ≡ unix
      → o.1.api ≡ system.api
      → is_plain o.0 ≡ true
      → Opens (continue o.0 (record (new_server S system) { system = o.1 }) (keep_socket S))
  kept-Opens system (ok v, t) e api h = record {
    callbacks = refl;
    ascending = omega arith;
    live = tt;
    listens = refl;
    platform = ap (λ a. a.platform) api ∙ e;
  }
  kept-Opens system (err runtime_error, t) e api h = refl
  kept-Opens system (err undefined_behaviour, t) e api h = ground arith
  kept-Opens system (err bad_optional_access, t) e api h = ground arith
  kept-Opens system (err bad_function_call, t) e api h = ground arith
  kept-Opens system (err serialize_exception, t) e api h = ground arith

  pub init_network-unix :
      (s : Server S.Text) → s.system.api.platform ≡ unix → init_network S s ≡ (ok tt, s)
  unfolding init_network
  init_network-unix s e = ground arith

  pub start_listening-Opens :
      (port : ℕ) (system : System S.Text)
      → system.api.platform ≡ unix
      → Opens (start_listening S port (new_server S system))
  unfolding start_listening
  start_listening-Opens port system e =
      kept-Opens system (open_server_socket port system) e (open_server_socket-api port system)
        (open_server_socket-is_plain port system)
