-- ===== src/TcpServer/Defs.antt =====
-- The operations of mtnet/TcpServer.cc and mtnet/Acceptor.cc, in the thread of the base loop.
-- `format` is what `snprintf` writes for "#%d". The connections are known by their addresses;
-- `new` returns the address that is an argument of `new_connection`.
use mtnet.Prelude.{
  ℕ, ◌+◌, List, [], ◌∷◌, ◌++◌, Bool, true, false, ◌&&◌, ◌==◌, if◌then◌else◌, Option, none, some,
  Result, ok, err, guard, ◌>>=◌, ◌>>◌, assertion, out_of_bounds,
}
use mtnet.Prelude.Int.{ℤ, pos, negsuc}
use mtnet.Prelude.Maps.{update}
use mtnet.Channel.{change, enable_reading}
use mtnet.EventLoopThreadPool
use mtnet.EventLoopThreadPool.{EventLoopThreadPool, get_next_loop}

-- `std::string`'s `==`.
abbrev pub eqb_name : List ℕ → List ℕ → Bool
eqb_name [] [] = true
eqb_name [] (y ∷ ys) = false
eqb_name (x ∷ xs) [] = false
eqb_name (x ∷ xs) (y ∷ ys) = x == y && eqb_name xs ys

abbrev pub update_name {ℓ} : {A : Type ℓ} → (List ℕ → A) → List ℕ → A → List ℕ → A
update_name f k a n = if eqb_name n k then a else f n

-- What the server reads of a connection.
pub record Connection : Type 0 where
  pub name : List ℕ
  pub loop : ℕ
  pub sockfd : ℕ

-- What the server asks the loop of a connection to run for it.
pub data Request : Type 0 where
  connect_established connect_destroyed : (loop connection : ℕ) → Request

-- The acceptor's part: whether it listens, and the events that its channel wants.
pub record Acceptor : Type 0 where
  pub listenning : Bool
  pub events : ℕ

-- `requests` has what was handed to the loops (and, in `Life`, has not been run), and `closed` the
-- descriptors given to `sockets::close`, in order.
pub record TcpServer : Type 0 where
  pub name : List ℕ
  pub acceptor : Acceptor
  pub thread_pool : EventLoopThreadPool
  pub started : Bool
  pub next_conn_id : ℕ
  pub connections : List ℕ → Option ℕ
  pub connection_at : ℕ → Option Connection
  pub requests : List Request
  pub closed : List ℤ

-- `TcpServer(loop, listenAddr)`; `host_port` is `listenAddr.toHostPort()`.
unfoldable pub init : ℕ → List ℕ → TcpServer
unfolding EventLoopThreadPool.init
init loop host_port = record {
  name = host_port;
  acceptor = record { listenning = false; events = 0 };
  thread_pool = EventLoopThreadPool.init loop;
  started = false;
  next_conn_id = 1;
  connections = λ n. none;
  connection_at = λ p. none;
  requests = [];
  closed = [];
}

-- `TcpServer::setThreadNum`.
unfoldable pub set_thread_num : ℤ → TcpServer → Result TcpServer
unfolding EventLoopThreadPool.set_thread_num
set_thread_num (pos n) s =
    ok (record s { thread_pool = EventLoopThreadPool.set_thread_num n s.thread_pool })
set_thread_num (negsuc n) s = err assertion

-- `Acceptor::listen`.
unfoldable pub listen : Acceptor → Acceptor
listen a = record a { listenning = true; events = change enable_reading a.events }

-- `TcpServer::start`, in the thread of the base loop.
unfoldable pub start : (ℕ → ℕ) → TcpServer → Result TcpServer
unfolding EventLoopThreadPool.start listen
start start_loop s = do
  pool ← if s.started then ok s.thread_pool else EventLoopThreadPool.start start_loop s.thread_pool
  ok (record s {
    started = true;
    thread_pool = pool;
    acceptor = if s.acceptor.listenning then s.acceptor else listen s.acceptor;
  })

-- A connection that is read through a pointer.
abbrev pub deref : Option Connection → Result Connection
deref none = err out_of_bounds
deref (some c) = ok c

abbrev pub is_some : Option ℕ → Bool
is_some none = false
is_some (some a) = true

module _ (format : ℕ → List ℕ) where
  abbrev pub conn_name : TcpServer → List ℕ
  conn_name s = s.name ++ format s.next_conn_id

  unfoldable pub new_connection : ℕ → ℕ → TcpServer → Result TcpServer
  new_connection address sockfd s = do
    r ← get_next_loop s.thread_pool
    ok (record s {
      next_conn_id = s.next_conn_id + 1;
      thread_pool = r.1;
      connections = update_name s.connections (conn_name s) (some address);
      connection_at =
          update s.connection_at address
            (some (record { name = conn_name s; loop = r.0; sockfd = sockfd }));
      requests = s.requests ++ connect_established r.0 address ∷ [];
    })

  -- `Acceptor::handleRead`, whose callback is `newConnection`; `connfd` is what `accept` returned.
  unfoldable pub handle_read : ℕ → ℤ → TcpServer → Result TcpServer
  unfolding new_connection
  handle_read address (pos connfd) s = new_connection address connfd s
  handle_read address (negsuc n) s = ok (record s { closed = s.closed ++ negsuc n ∷ [] })

-- `removeConnectionInLoop`.
unfoldable pub remove_connection_in_loop : ℕ → TcpServer → Result TcpServer
remove_connection_in_loop address s = do
  conn ← deref (s.connection_at address)
  guard (is_some (s.connections conn.name)) assertion
  ok (record s {
    connections = update_name s.connections conn.name none;
    requests = s.requests ++ connect_destroyed conn.loop address ∷ [];
  })
