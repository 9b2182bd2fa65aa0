-- ===== src/Sockets/Examples.antt =====
-- The theorems on sockets at systems that succeed and that fail.
use samurai_kirby_server.Prelude.{ℕ, ◌∷◌, ◌≡◌, refl}
use samurai_kirby_server.Sockets.{returned, failed, would_block, error_of, unix, accept, System}
use samurai_kirby_server.Sockets.Server.{ServerSocket, open_server_socket}
use samurai_kirby_server.Sockets.Client.{accept_connection}
use samurai_kirby_server.Sockets.Opening.{
  ready_calls, make_calls, called_all, open_server_socket-make_calls,
}
use samurai_kirby_server.Sockets.Accepting.{
  Accepts, tried_calls, accept_connection-Accepts, accepted_socket_leaks,
}
use samurai_kirby_server.Sockets.Fixtures.{system_of}
use samurai_kirby_server.Exec.{err, runtime_error}

abbrev system : System ℕ
system = system_of unix (returned 4) (failed would_block) (returned 2) 0

-- fcntl fails.
abbrev failing : System ℕ
failing = system_of unix (returned 4) (failed would_block) (failed (error_of 9)) 0

abbrev server_socket : ServerSocket
server_socket = record { descriptor = 3 }

open_server_socket-make_calls_example :
    open_server_socket 8081 system ≡ make_calls 3 (ready_calls system 8081 3) system
open_server_socket-make_calls_example = open_server_socket-make_calls 8081 system

accept_connection-Accepts_example :
    Accepts server_socket (returned 4) system (accept_connection server_socket system)
accept_connection-Accepts_example = accept_connection-Accepts server_socket system

accepted_socket_leaks_example : accept_connection server_socket failing ≡ (
  err runtime_error,
  called_all (accept 3 ∷ tried_calls 4 (failed (error_of 9)) failing.api.non_blocking) failing,
)
accepted_socket_leaks_example = accepted_socket_leaks server_socket 4 failing refl refl refl
