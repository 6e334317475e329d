-- ===== src/TcpServer/Tests.antt =====
-- A run of the server, and the theorems about it at concrete servers.
use mtnet.Prelude.{ℕ, ◌≡◌, refl, inr, List, [], ◌∷◌, ◌++◌, none, some, true, false, ok, arith}
use mtnet.Prelude.Int.{pos, negsuc}
use mtnet.Prelude.Maps.{update}
use mtnet.EventLoopThreadPool.{EventLoopThreadPool, get_next_loop}
use mtnet.TcpServer.Defs.{
  TcpServer, Connection, connect_established, connect_destroyed, new_connection,
  remove_connection_in_loop, update_name, init, set_thread_num, handle_read,
}
use mtnet.TcpServer.Connections.{
  IsInjective, IsValid, new_connection-Registered, new_connection_lem,
  remove_connection_in_loop_lem,
}

-- "#" and one byte.
abbrev format : ℕ → List ℕ
format k = 35 ∷ k ∷ []

format-IsInjective : IsInjective format
format-IsInjective a b h = cc

abbrev pool : ℕ → EventLoopThreadPool
pool next = record {
  base_loop = 1;
  started = true;
  num_threads = 2;
  next = next;
  loops = 10 ∷ 20 ∷ [];
}

-- A server named "h", before its first connection.
abbrev ready : TcpServer
ready = record {
  name = 104 ∷ [];
  acceptor = record { listenning = true; events = 3 };
  thread_pool = pool 0;
  started = true;
  next_conn_id = 1;
  connections = λ n. none;
  connection_at = λ p. none;
  requests = [];
  closed = [];
}

abbrev first : Connection
first = record { name = 104 ∷ 35 ∷ 1 ∷ []; loop = 10; sockfd = 7 }

-- With its first connection, at the address 500.
abbrev one : TcpServer
one = record ready {
  thread_pool = pool 1;
  next_conn_id = 2;
  connections = update_name (λ n. none) first.name (some 500);
  connection_at = update (λ p. none) 500 (some first);
  requests = connect_established 10 500 ∷ [];
}

start_run :
    (set_thread_num (pos 2) (init 1 (104 ∷ [])))
    ≡ ok (record (init 1 (104 ∷ [])) {
      thread_pool = record (pool 0) { started = false; loops = [] };
    })
unfolding set_thread_num init
start_run = refl

accept_run : handle_read format 500 (pos 7) ready ≡ ok one
unfolding handle_read get_next_loop
accept_run = refl

accept_fails_run :
    handle_read format 500 (negsuc 0) ready ≡ ok (record ready { closed = negsuc 0 ∷ [] })
unfolding handle_read
accept_fails_run = refl

ready-IsValid : IsValid format ready
ready-IsValid = record {
  ready = inr (record { threads = omega arith; inside = omega arith });
  registered = λ n a h. absurd (none-some a h);
}
  where
    none-some : (a : ℕ) → none ≡ some a → ⊥
    none-some a h = cc

one-IsValid : IsValid format one
one-IsValid = record {
  ready = inr (record { threads = omega arith; inside = omega arith });
  registered =
      new_connection-Registered format format-IsInjective ready one first 500 ready-IsValid refl
        refl refl refl refl refl;
}

new_connection_lem_example :
    (c : Connection) × (t : TcpServer) × (new_connection format 500 7 ready ≡ ok t)
    × IsValid format t
    × (ready.connections c.name ≡ none)
    × (t.connections ≡ update_name ready.connections c.name (some 500))
    × (t.connection_at ≡ update ready.connection_at 500 (some c))
    × (t.requests ≡ ready.requests ++ connect_established c.loop 500 ∷ [])
new_connection_lem_example =
    new_connection_lem format format-IsInjective ready 500 7 ready-IsValid refl

remove_connection_in_loop_lem_example :
    (c : Connection) × (t : TcpServer) × (one.connection_at 500 ≡ some c)
    × (c.name ≡ first.name)
    × (remove_connection_in_loop 500 one ≡ ok t)
    × IsValid format t
    × (t.connections ≡ update_name one.connections first.name none)
    × (t.connection_at ≡ one.connection_at)
    × (t.requests ≡ one.requests ++ connect_destroyed c.loop 500 ∷ [])
remove_connection_in_loop_lem_example =
    remove_connection_in_loop_lem format one first.name 500 one-IsValid refl
