-- ===== src/TcpServer/Started.antt =====
-- A server of mtnet/TcpServer.cc that was made, given its number of threads and started is one
-- that the runs of `Life` begin with.
use mtnet.Prelude.{
  ℕ, zero, suc, ◌+◌, ◌≡◌, refl, true, List, [], ◌∷◌, ◌++◌, ok, inl, inr, length, length-append,
  arith, ◌>>=◌,
}
use mtnet.Prelude.Int.{pos}
use mtnet.EventLoopThreadPool as Pool
use mtnet.EventLoopThreadPool.{EventLoopThreadPool, start_from}
use mtnet.TcpServer.Defs.{TcpServer, init, set_thread_num, start, listen}
use mtnet.TcpServer.Connections.{IsReady}
use mtnet.TcpServer.Life.Safety.{IsFresh}

length-start_from :
    (start_loop : ℕ → ℕ) (i n : ℕ) (loops : List ℕ)
    → length (start_from start_loop i n loops) ≡ length loops + n
unfolding start_from
length-start_from start_loop i zero loops = omega arith
length-start_from start_loop i (suc n) loops =
    let rest = length-start_from start_loop (i + 1) n (loops ++ start_loop i ∷ []) in
    let more = length-append loops (start_loop i ∷ []) in omega (arith, rest, more)

-- The pool with its threads.
abbrev pool : (ℕ → ℕ) → (loop n : ℕ) → EventLoopThreadPool
pool start_loop loop n = record {
  base_loop = loop;
  started = true;
  num_threads = n;
  next = 0;
  loops = start_from start_loop 0 n [];
}

pool-IsReady : (start_loop : ℕ → ℕ) (loop n : ℕ) → IsReady (pool start_loop loop n)
unfolding start_from
pool-IsReady start_loop loop zero = inl refl
pool-IsReady start_loop loop (suc n) =
    let all = length-start_from start_loop 0 (suc n) [] in
    inr (record { threads = omega (arith, all); inside = omega (arith, all) })

-- Whatever the number of threads and the loops that they return: the server starts, and can take
-- connections, of which it has none.
pub start-IsFresh :
    (start_loop : ℕ → ℕ) (loop n : ℕ) (host_port : List ℕ)
    → (t : TcpServer) × ((set_thread_num (pos n) (init loop host_port) >>= start start_loop) ≡ ok t)
      × IsFresh t
unfolding set_thread_num init start Pool.set_thread_num Pool.start Pool.init listen
start-IsFresh start_loop loop n host_port = (
  record (init loop host_port) {
    thread_pool = pool start_loop loop n;
    started = true;
    acceptor = listen (init loop host_port).acceptor;
  },
  refl,
  record {
    ready = pool-IsReady start_loop loop n;
    unregistered = λ m. refl;
    unused_addresses = λ a. refl;
    no_requests = refl;
  },
)
