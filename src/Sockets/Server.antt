-- ===== src/Sockets/Server.antt =====
-- network/sockets/ServerSocket.h and ServerSocket.cpp.
use samurai_kirby_server.Prelude.{ℕ}
use samurai_kirby_server.Exec.{Exec, throw, runtime_error, pure, gets, ◌>>=◌, ◌>>◌}
use samurai_kirby_server.Sockets.{
  System, Answer, returned, failed, socket, io_control, get_flags, set_flags, bind, listen, close,
  cleanup, perform, perform_, if_windows, release,
}

pub record ServerSocket : Type 0 where
  pub descriptor : ℕ

abbrev pub get_internal_socket : ServerSocket → ℕ
get_internal_socket s = s.descriptor

module _ {Text : Type 0} where
  -- Goes on where a call did not fail.
  abbrev pub unless_failed :
      {A : Type 0}
      → Exec (System Text) A
      → (ℕ → Exec (System Text) A)
      → Answer
      → Exec (System Text) A
  unless_failed a f (failed _) = a
  unless_failed a f (returned n) = f n

  -- ioctlsocket, with what is done where it fails.
  abbrev pub set_mode : ℕ → Exec (System Text) (Unit {0})
  set_mode d = do
    answer ← perform (io_control d)
    unless_failed (do perform_ (close d); perform_ cleanup; throw runtime_error) (λ _. pure tt)
        answer

  -- fcntl twice: neither failure closes the socket.
  abbrev pub set_non_blocking_flag : ℕ → Exec (System Text) (Unit {0})
  set_non_blocking_flag d = do
    answer ← perform (get_flags d)
    non_blocking ← gets (λ s. s.api.non_blocking)
    unless_failed (throw runtime_error)
        (λ flags. do
          set ← perform (set_flags d (non_blocking flags))
          unless_failed (throw runtime_error) (λ _. pure tt) set)
        answer

  abbrev pub set_non_blocking : ℕ → Exec (System Text) (Unit {0})
  set_non_blocking d = if_windows (set_mode d) (set_non_blocking_flag d)

  abbrev pub bind_socket : ℕ → ℕ → Exec (System Text) (Unit {0})
  bind_socket d port = do
    htons ← gets (λ s. s.api.htons)
    answer ← perform (bind d (htons port))
    unless_failed (do release d; throw runtime_error) (λ _. pure tt) answer

  abbrev pub listen_on : ℕ → Exec (System Text) (Unit {0})
  listen_on d = do
    answer ← perform (listen d 10)
    unless_failed (do release d; throw runtime_error) (λ _. pure tt) answer

  -- The constructor after the call of `socket`.
  abbrev pub go_on : ℕ → Answer → Exec (System Text) ServerSocket
  go_on port (failed _) = do if_windows (perform_ cleanup) (pure tt); throw runtime_error
  go_on port (returned d) = do
    set_non_blocking d
    bind_socket d port
    listen_on d
    pure (record { descriptor = d })

  -- The constructor.
  unfoldable pub open_server_socket : ℕ → Exec (System Text) ServerSocket
  open_server_socket port = do answer ← perform socket; go_on port answer

  -- The destructor.
  unfoldable pub close_server_socket : ServerSocket → Exec (System Text) (Unit {0})
  close_server_socket s = release s.descriptor
