-- ===== src/Sockets/Fixtures.antt =====
-- Systems whose answers are known, for the examples.
use samurai_kirby_server.Prelude.{◌+◌, []}
use samurai_kirby_server.Sockets.{
  Call, Answer, returned, Platform, Api, System, accept, recv, socket, get_flags, set_flags, bind,
  listen, close, send, startup, cleanup, io_control,
}

abbrev pub api_of : Platform → Api
api_of p = record {
  platform = p;
  htons = λ n. n;
  ntohs = λ n. n;
  inet_ntoa = λ n. "127.0.0.1";
  non_blocking = λ f. f + 2048;
}

-- `a` answers accept, `r` recv and `f` fcntl; `socket` gives 3, and all else succeeds.
abbrev pub answers : {Text : Type 0} → Answer → Answer → Answer → Call Text → Answer
answers a r f socket = returned 3
answers a r f (accept _) = a
answers a r f (recv _ _) = r
answers a r f (get_flags _) = f
answers a r f (set_flags _ _) = f
answers a r f startup = returned 0
answers a r f cleanup = returned 0
answers a r f (io_control _) = returned 0
answers a r f (bind _ _) = returned 0
answers a r f (listen _ _) = returned 0
answers a r f (close _) = returned 0
answers a r f (send _ _) = returned 0

abbrev pub system_of : {Text : Type 0} → Platform → Answer → Answer → Answer → Text → System Text
system_of p a r f t = record {
  api = api_of p;
  answer = λ _ c. answers a r f c;
  bytes = λ _. t;
  peer = λ _. record { sin_addr = 2130706433; sin_port = 50000 };
  made = 0;
  calls = [];
}
