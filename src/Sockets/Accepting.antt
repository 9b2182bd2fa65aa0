-- ===== src/Sockets/Accepting.antt =====
-- Server::acceptConnection, with the making of the ClientSocket.
use samurai_kirby_server.Prelude.{
  ℕ, suc, Option, none, some, Bool, true, false, List, [], ◌∷◌, ◌≡◌, ◌≢◌, refl, arith, ltb,
}
use samurai_kirby_server.Exec.{
  Result, ok, err, runtime_error, undefined_behaviour, bad_optional_access, bad_function_call,
  serialize_exception,
}
use samurai_kirby_server.Sockets.{
  System, Call, Answer, returned, failed, get_flags, set_flags, accept, called, Address, windows,
  unix, would_block, error_of,
}
use samurai_kirby_server.Sockets.Server.{ServerSocket}
use samurai_kirby_server.Sockets.Client.{
  ClientSocket, open_client_socket, accept_answer, accept_connection,
}
use samurai_kirby_server.Prelude.{◌||◌, ◌&&◌}
use samurai_kirby_server.Sockets.{io_control, Platform}
use samurai_kirby_server.Sockets.Opening.{number, is_failed, called_all, mode_calls}

-- An error whose number lies past the end of the message that it is added to.
abbrev pub is_wild : Answer → Bool
is_wild (failed (error_of e)) = ltb 39 e
is_wild _ = false

abbrev pub is_windows : Platform → Bool
is_windows windows = true
is_windows unix = false

module _ {Text : Type 0} where
  -- One of the calls that make a socket one that does not block fails.
  abbrev pub mode_fails : ℕ → System Text → Platform → Bool
  mode_fails d s windows = is_failed (s.answer s.made (io_control d))
  mode_fails d s unix =
      is_failed (s.answer s.made (get_flags d))
      || is_failed (
          s.answer (suc s.made)
            (set_flags d (s.api.non_blocking (number (s.answer s.made (get_flags d))))))

  abbrev pub Accepts :
      ServerSocket → Answer → System Text → Result (Option ClientSocket) × System Text → Type 0
  Accepts server a s (ok (some c), t) =
      let asked = called (accept server.descriptor) s in
      (a ≡ returned c.descriptor)
      × (c.addr ≡ s.peer s.made)
      × (mode_fails c.descriptor asked s.api.platform ≡ false)
      × (t ≡ called_all (mode_calls asked c.descriptor s.api.platform) asked)
  Accepts server a s (ok none, t) =
      (a ≡ failed would_block) × (t ≡ called (accept server.descriptor) s)
  Accepts server a s (err runtime_error, t) =
      (a ≢ failed would_block)
      × ((is_failed a || mode_fails (number a) (called (accept server.descriptor) s) s.api.platform)
          ≡ true)
      × ((is_windows s.api.platform && is_wild a) ≡ false)
  Accepts server a s (err undefined_behaviour, t) = (is_windows s.api.platform && is_wild a) ≡ true
  Accepts server a s (err bad_optional_access, t) = ⊥
  Accepts server a s (err bad_function_call, t) = ⊥
  Accepts server a s (err serialize_exception, t) = ⊥

  opened-Accepts :
      (server : ServerSocket) (d : ℕ) (p : Platform) (s : System Text)
      → s.api.platform ≡ p
      → Accepts server
          (returned d)
          s
          (accept_answer (s.peer s.made) (returned d) (called (accept server.descriptor) s))
  unfolding open_client_socket
  opened-Accepts server d windows s e = rw e (ground arith)
  opened-Accepts server d unix s e = rw e (ground arith)

  accept_answer-Accepts :
      (server : ServerSocket) (a : Answer) (s : System Text)
      → Accepts server a s (accept_answer (s.peer s.made) a (called (accept server.descriptor) s))
  accept_answer-Accepts server (returned d) s = opened-Accepts server d s.api.platform s refl
  accept_answer-Accepts server (failed would_block) s = (refl, refl)
  accept_answer-Accepts server (failed (error_of e)) s = ground arith

  accept_answer-api :
      (peer : Address) (a : Answer) (s : System Text) → (accept_answer peer a s).1.api ≡ s.api
  unfolding open_client_socket
  accept_answer-api peer a s = ground arith

  pub accept_connection-api :
      (server : ServerSocket) (s : System Text) → (accept_connection server s).1.api ≡ s.api
  unfolding accept_connection open_client_socket
  accept_connection-api server s =
      accept_answer-api (s.peer s.made) (s.answer s.made (accept server.descriptor))
        (called (accept server.descriptor) s)

  -- Asking for a connection ends in one of three ways. A socket is returned if `accept` gave its
  -- descriptor and the calls that make it non-blocking succeeded: it has the address of the peer, and
  -- these are the calls that were made. Nothing is returned just where `accept` failed since it would
  -- block, and no other call is made. Or it throws, where one of these calls failed for another
  -- reason: what is undefined, on Windows where `accept` fails with a number past 39 and there only,
  -- or else a runtime_error.
  pub accept_connection-Accepts :
      (server : ServerSocket) (s : System Text)
      → Accepts server (s.answer s.made (accept server.descriptor)) s (accept_connection server s)
  unfolding accept_connection
  accept_connection-Accepts server s =
      accept_answer-Accepts server (s.answer s.made (accept server.descriptor)) s

  -- The calls of fcntl up to the one that fails.
  abbrev pub tried_calls : ℕ → Answer → (ℕ → ℕ) → List (Call Text)
  tried_calls d (failed _) non_blocking = get_flags d ∷ []
  tried_calls d (returned flags) non_blocking = get_flags d ∷ set_flags d (non_blocking flags) ∷ []

  -- If, elsewhere than on Windows, `accept` gives a descriptor and one of the two calls of fcntl
  -- fails, then acceptConnection throws a runtime_error, and the calls of `accept` and `fcntl` are all
  -- that it has made: the descriptor is not closed.
  pub accepted_socket_leaks :
      (server : ServerSocket) (d : ℕ) (s : System Text)
      → s.api.platform ≡ unix
      → s.answer s.made (accept server.descriptor) ≡ returned d
      → mode_fails d (called (accept server.descriptor) s) unix ≡ true
      → accept_connection server s ≡ (
        err runtime_error,
        called_all
            (accept server.descriptor
              ∷ tried_calls d (s.answer (suc s.made) (get_flags d)) s.api.non_blocking)
            s,
      )
  unfolding accept_connection open_client_socket
  accepted_socket_leaks server d s platform given fails = ground (arith)
