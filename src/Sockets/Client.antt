-- ===== src/Sockets/Client.antt =====
-- network/sockets/ClientSocket.h and ClientSocket.cpp, and Server::acceptConnection of
-- network/Server.cpp.
use samurai_kirby_server.Prelude.{ℕ, String, Option, none, some}
use samurai_kirby_server.Exec.{Exec, throw, runtime_error, pure, gets, ◌>>=◌, ◌>>◌}
use samurai_kirby_server.Sockets.{
  System, Answer, Address, Api, returned, failed, would_block, error_of, accept, send, close,
  perform, perform_, if_windows, throw_at,
}
use samurai_kirby_server.Sockets.Server
use samurai_kirby_server.Sockets.Server.{ServerSocket, set_non_blocking}

pub record ClientSocket : Type 0 where
  pub descriptor : ℕ
  pub addr : Address

abbrev pub get_internal_socket : ClientSocket → ℕ
get_internal_socket c = c.descriptor

abbrev pub get_ip : Api → ClientSocket → String
get_ip api c = api.inet_ntoa c.addr.sin_addr

abbrev pub get_port : Api → ClientSocket → ℕ
get_port api c = api.ntohs c.addr.sin_port

module _ {Text : Type 0} where
  -- The constructor: what it does with the socket is what the one of ServerSocket does.
  unfoldable pub open_client_socket : ℕ → Address → Exec (System Text) ClientSocket
  open_client_socket d addr = do set_non_blocking d; pure (record { descriptor = d; addr = addr })

  -- The destructor.
  unfoldable pub close_client_socket : ClientSocket → Exec (System Text) (Unit {0})
  close_client_socket c = perform_ (close c.descriptor)

  -- ClientSocket::send. What the system answers is not looked at.
  unfoldable pub send_text : ClientSocket → Text → Exec (System Text) (Unit {0})
  send_text c t = perform_ (send c.descriptor t)

  abbrev pub accept_answer : Address → Answer → Exec (System Text) (Option ClientSocket)
  accept_answer peer (returned d) = do client ← open_client_socket d peer; pure (some client)
  accept_answer peer (failed would_block) = pure none
  accept_answer peer (failed (error_of e)) =
      if_windows (throw_at 39 (error_of e)) (throw runtime_error)

  -- Server::acceptConnection
  unfoldable pub accept_connection : ServerSocket → Exec (System Text) (Option ClientSocket)
  unfolding open_client_socket
  accept_connection server = do
    peer ← gets (λ s. s.peer s.made)
    answer ← perform (accept (Server.get_internal_socket server))
    accept_answer peer answer
