-- ===== src/TcpServer.antt =====
-- TcpServer (yuan/tcp_server.h, yuan/tcp_server.cc). A socket is named by a number, which `new` gives
-- it. Whether bind and listen succeed on an address is a parameter; so is what accept returns.
mod Laws
mod Tests
use cpp_linux_server_frame.Base.{
  ℕ, zero, suc, ◌+◌, Bool, true, false, List, [], ◌∷◌, ◌++◌, Option, none, some, map, if◌then◌else◌,
}

-- What a TcpServer has m_acceptWorker run.
pub data Job : Type 0 where
  -- startAccept of a socket
  start_accept : ℕ → Job
  -- The lambda of stop
  close_all : Job

pub record TcpServer : Type 0 where
  pub socks : List ℕ
  pub is_stop : Bool
  pub recv_timeout : ℕ
  -- The calls of schedule of m_acceptWorker, in order.
  pub accept_jobs : List Job
  -- The sockets for whose handleClient schedule of m_worker was called, in order.
  pub clients : List ℕ
  -- The sockets that the lambda of stop has cancelled and closed.
  pub closed : List ℕ
  -- The receive timeouts that have been set on sockets.
  pub timeouts : List (ℕ × ℕ)

abbrev pub new_server : ℕ → TcpServer
new_server recv_timeout = record {
  socks = [];
  is_stop = true;
  recv_timeout = recv_timeout;
  accept_jobs = [];
  clients = [];
  closed = [];
  timeouts = [];
}

-- An address given to bind, with its socket and whether bind and listen succeed.
pub record Attempt : Type 0 where
  pub addr : ℕ
  pub sock : ℕ
  pub binds : Bool
  pub listens : Bool

-- The loop of bind: m_socks and fails. A socket that fails is destroyed, which closes it.
unfoldable pub bind_loop : List Attempt → List ℕ → List ℕ → List ℕ × List ℕ
bind_loop [] socks fails = (socks, fails)
bind_loop (a ∷ l) socks fails = elim a.binds [
  | false ↦ bind_loop l socks (fails ++ a.addr ∷ [])
  | true ↦ elim a.listens [
    | false ↦ bind_loop l socks (fails ++ a.addr ∷ [])
    | true ↦ bind_loop l (socks ++ a.sock ∷ []) fails
  ]
]

abbrev pub bound : TcpServer → List ℕ × List ℕ → Bool × List ℕ × TcpServer
bound s (socks, []) = (true, [], record s { socks = socks })
bound s (socks, f ∷ fails) = (false, f ∷ fails, record s { socks = [] })

-- bind(addrs, fails): the return value, `fails` and the server
unfoldable pub bind : List Attempt → List ℕ → TcpServer → Bool × List ℕ × TcpServer
bind attempts fails s = bound s (bind_loop attempts s.socks fails)

-- start, which always returns true
unfoldable pub start : TcpServer → TcpServer
start s =
    if s.is_stop
    then record s { is_stop = false; accept_jobs = s.accept_jobs ++ map start_accept s.socks }
    else s

-- stop
unfoldable pub stop : TcpServer → TcpServer
stop s = record s { is_stop = true; accept_jobs = s.accept_jobs ++ close_all ∷ [] }

-- The lambda of stop
unfoldable pub run_close_all : TcpServer → TcpServer
run_close_all s = record s { closed = s.closed ++ s.socks; socks = [] }

-- What startAccept does with the socket that accept returns.
unfoldable pub greet : Option ℕ → TcpServer → TcpServer
greet none s = s
greet (some client) s = record s {
  timeouts = s.timeouts ++ (client, s.recv_timeout) ∷ [];
  clients = s.clients ++ client ∷ [];
}

-- A round of startAccept: what accept returns, and whether stop is called in the round, be it while
-- accept waits or later.
pub record Accepted : Type 0 where
  pub client : Option ℕ
  pub stopped : Bool

-- startAccept, over the rounds whose accept returns.
unfoldable pub accept_loop : List Accepted → TcpServer → TcpServer
accept_loop [] s = s
accept_loop (a ∷ l) s =
    let s' = greet a.client s in
    elim s.is_stop [ true ↦ s | false ↦ accept_loop l (if a.stopped then stop s' else s') ]
