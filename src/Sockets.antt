-- ===== src/Sockets.antt =====
-- network/sockets, and the calls of the operating system below it, as a parameter: what each call
-- answers is given, and the calls that were made are kept.
pub mod Server
pub mod Client
pub mod Opening
pub mod Accepting
pub mod Fixtures
mod Examples
use samurai_kirby_server.Prelude.{ℕ, suc, String, List, [], ◌∷◌, ◌++◌, leb, if◌then◌else◌}
use samurai_kirby_server.Exec.{
  Exec, ok, throw, runtime_error, undefined_behaviour, pure, gets, ◌>>=◌, ◌>>◌,
}

-- Whether _WIN32 is defined.
pub data Platform : Type 0 where
  windows unix : Platform

-- errno or WSAGetLastError(): EWOULDBLOCK, EAGAIN or WSAEWOULDBLOCK, or another code.
pub data ErrorCode : Type 0 where
  would_block : ErrorCode
  error_of : ℕ → ErrorCode

-- A socket is named by its descriptor. `set_flags d f` is fcntl(d, F_SETFL, f), `io_control` is
-- ioctlsocket with FIONBIO and 1, `bind` is to any address, and `send d t` sends the text `t` and the
-- separator "\n".
pub data Call (Text : Type 0) : Type 0 where
  startup : Call Text
  cleanup : Call Text
  socket : Call Text
  io_control : ℕ → Call Text
  get_flags : ℕ → Call Text
  set_flags : ℕ → ℕ → Call Text
  bind : ℕ → ℕ → Call Text
  listen : ℕ → ℕ → Call Text
  close : ℕ → Call Text
  accept : ℕ → Call Text
  recv : ℕ → ℕ → Call Text
  send : ℕ → Text → Call Text

-- A call fails by -1, and WSAStartup and ioctlsocket by a number that is not 0.
pub data Answer : Type 0 where
  returned : ℕ → Answer
  failed : ErrorCode → Answer

-- struct sockaddr_in
pub record Address : Type 0 where
  pub sin_addr : ℕ
  pub sin_port : ℕ

-- What the code takes from the headers of the system. `non_blocking f` is `f | O_NONBLOCK`.
pub record Api : Type 0 where
  pub platform : Platform
  pub htons : ℕ → ℕ
  pub ntohs : ℕ → ℕ
  pub inet_ntoa : ℕ → String
  pub non_blocking : ℕ → ℕ

-- `answer n c` is what the n-th call answers if it is `c`, `bytes n` what it leaves in the buffer,
-- and `peer n` what it leaves in the address; `made` calls were made, and `calls` are they.
pub record System (Text : Type 0) : Type 0 where
  pub api : Api
  pub answer : ℕ → Call Text → Answer
  pub bytes : ℕ → Text
  pub peer : ℕ → Address
  pub made : ℕ
  pub calls : List (Call Text)

-- The lines under `#ifdef _WIN32`, and those under `#else`.
abbrev pub on_platform : {A : Type 0} → A → A → Platform → A
on_platform a b windows = a
on_platform a b unix = b

module _ {Text : Type 0} where
  -- The state of the system after a call.
  abbrev pub called : Call Text → System Text → System Text
  called c s = record s { made = suc s.made; calls = s.calls ++ c ∷ [] }

  abbrev pub perform : Call Text → Exec (System Text) Answer
  perform c s = (ok (s.answer s.made c), called c s)

  -- A call whose answer is not looked at.
  abbrev pub perform_ : Call Text → Exec (System Text) (Unit {0})
  perform_ c s = (ok tt, called c s)

  abbrev pub if_windows :
      {A : Type 0} → Exec (System Text) A → Exec (System Text) A → Exec (System Text) A
  if_windows a b s = on_platform a b s.api.platform s

  -- `throw std::runtime_error("..." + error)`, with a literal of `length` characters: the sum is
  -- one of a pointer and a number. Past the end of the literal it has no defined behaviour.
  abbrev pub throw_at : {A : Type 0} → ℕ → ErrorCode → Exec (System Text) A
  throw_at length would_block = throw runtime_error
  throw_at length (error_of e) =
      if leb e length then throw runtime_error else throw undefined_behaviour

  -- What the constructors do after a failure: `closesocket` and `WSACleanup` on Windows.
  abbrev pub release : ℕ → Exec (System Text) (Unit {0})
  release d = if_windows (do perform_ (close d); perform_ cleanup) (perform_ (close d))
