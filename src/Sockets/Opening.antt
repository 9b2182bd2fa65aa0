-- ===== src/Sockets/Opening.antt =====
-- The constructor of ServerSocket against a list of calls that is made until one fails.
use samurai_kirby_server.Prelude.{ℕ, Bool, true, false, List, [], ◌∷◌, ◌++◌, ◌≡◌, arith}
use samurai_kirby_server.Exec.{
  Result, ok, err, runtime_error, undefined_behaviour, bad_optional_access, bad_function_call,
  serialize_exception,
}
use samurai_kirby_server.Sockets.{
  System, Call, Answer, returned, failed, socket, io_control, get_flags, set_flags, bind, listen,
  close, cleanup, called, Platform, windows, unix,
}
use samurai_kirby_server.Sockets.Server.{ServerSocket, open_server_socket}

abbrev pub number : Answer → ℕ
number (returned n) = n
number (failed _) = 0

abbrev pub is_failed : Answer → Bool
is_failed (returned _) = false
is_failed (failed _) = true

-- How a call ends that throws at most a runtime_error.
abbrev pub is_plain : {A : Type 0} → Result A → Bool
is_plain (ok a) = true
is_plain (err runtime_error) = true
is_plain (err undefined_behaviour) = false
is_plain (err bad_optional_access) = false
is_plain (err bad_function_call) = false
is_plain (err serialize_exception) = false

module _ {Text : Type 0} where
  -- The calls that make a socket one that does not block, where they succeed.
  abbrev pub mode_calls : System Text → ℕ → Platform → List (Call Text)
  mode_calls s d windows = io_control d ∷ []
  mode_calls s d unix =
      get_flags d ∷ set_flags d (s.api.non_blocking (number (s.answer s.made (get_flags d)))) ∷ []

  -- The calls that make a listening socket that does not block.
  abbrev pub ready_calls : System Text → ℕ → ℕ → List (Call Text)
  ready_calls s port d =
      socket ∷ mode_calls (called socket s) d s.api.platform
      ++ bind d (s.api.htons port) ∷ listen d 10 ∷ []

  abbrev pub called_all : List (Call Text) → System Text → System Text
  called_all [] s = s
  called_all (c ∷ rest) s = called_all rest (called c s)

  -- What is called where a call has failed.
  abbrev pub undo_calls : ℕ → Platform → Call Text → List (Call Text)
  undo_calls d windows socket = cleanup ∷ []
  undo_calls d windows _ = close d ∷ cleanup ∷ []
  undo_calls d unix (bind _ _) = close d ∷ []
  undo_calls d unix (listen _ _) = close d ∷ []
  undo_calls d unix _ = []

  abbrev stop_at :
      Answer → System Text → Result ServerSocket × System Text → Result ServerSocket × System Text
  stop_at (failed _) stopped later = (err runtime_error, stopped)
  stop_at (returned _) stopped later = later

  -- Makes the calls in their order. The first that fails is the last but for those that undo.
  abbrev pub make_calls : ℕ → List (Call Text) → System Text → Result ServerSocket × System Text
  make_calls d [] s = (ok (record { descriptor = d }), s)
  make_calls d (c ∷ rest) s =
      stop_at (s.answer s.made c) (called_all (undo_calls d s.api.platform c) (called c s))
        (make_calls d rest (called c s))

  -- Opening the server's socket is to make, one after the other, the calls that make a listening
  -- socket that does not block. Where all of them succeed, it returns the descriptor. Where one
  -- fails, it makes no more of them, but on Windows closes the socket if there is one and calls
  -- WSACleanup, and elsewhere closes it if `bind` or `listen` failed; then it throws a runtime_error.
  pub open_server_socket-make_calls :
      (port : ℕ) (s : System Text)
      → let d = number (s.answer s.made socket) in
        open_server_socket port s ≡ make_calls d (ready_calls s port d) s
  unfolding open_server_socket
  open_server_socket-make_calls port s = ground arith

  pub open_server_socket-api :
      (port : ℕ) (s : System Text) → (open_server_socket port s).1.api ≡ s.api
  unfolding open_server_socket
  open_server_socket-api port s = ground arith

  pub open_server_socket-is_plain :
      (port : ℕ) (s : System Text) → is_plain (open_server_socket port s).0 ≡ true
  unfolding open_server_socket
  open_server_socket-is_plain port s = ground arith
