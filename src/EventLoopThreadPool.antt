-- ===== src/EventLoopThreadPool.antt =====
-- mtnet/EventLoopThreadPool.h and mtnet/EventLoopThreadPool.cc: the loops that connections are dealt
-- out to. A loop is known by its address; the addresses of the loops that the new threads return are
-- an argument of `start`.
pub mod RoundRobin
mod Tests
use mtnet.Prelude.{
  ℕ, zero, suc, ◌+◌, List, [], ◌∷◌, ◌++◌, Bool, true, false, not, leb, if◌then◌else◌, Option, none,
  some, length, get_elem?, take, Result, ok, err, guard, ◌>>=◌, ◌>>◌, assertion, out_of_bounds,
}

pub record EventLoopThreadPool : Type 0 where
  pub base_loop : ℕ
  pub started : Bool
  pub num_threads : ℕ
  pub next : ℕ
  pub loops : List ℕ

-- `EventLoopThreadPool(baseLoop)`.
unfoldable pub init : ℕ → EventLoopThreadPool
init base = record { base_loop = base; started = false; num_threads = 0; next = 0; loops = [] }

-- `TcpServer::setThreadNum` asserts that the number is not negative.
unfoldable pub set_thread_num : ℕ → EventLoopThreadPool → EventLoopThreadPool
set_thread_num n p = record p { num_threads = n }

-- The rounds of the loop in `start` that are left; `start_loop i` is what `startLoop()` of the i-th
-- thread returns.
unfoldable pub start_from : (ℕ → ℕ) → ℕ → ℕ → List ℕ → List ℕ
start_from start_loop i zero loops = loops
start_from start_loop i (suc rounds) loops =
    start_from start_loop (i + 1) rounds (loops ++ start_loop i ∷ [])

unfoldable pub start : (ℕ → ℕ) → EventLoopThreadPool → Result EventLoopThreadPool
unfolding start_from
start start_loop p = do
  guard (not p.started) assertion
  ok (record p { started = true; loops = start_from start_loop 0 p.num_threads p.loops })

-- The loop that `loops_[next_]` is.
abbrev pub element : Option ℕ → Result ℕ
element none = err out_of_bounds
element (some l) = ok l

abbrev pub is_empty : List ℕ → Bool
is_empty [] = true
is_empty (l ∷ ls) = false

-- `getNextLoop`: the base loop if there are no threads, else the next loop of the pool.
unfoldable pub get_next_loop : EventLoopThreadPool → Result (ℕ × EventLoopThreadPool)
get_next_loop p =
    if is_empty p.loops
    then ok (p.base_loop, p)
    else element (get_elem? p.loops p.next) >>= (λ loop.
      ok (loop, record p { next = if leb (length p.loops) (p.next + 1) then 0 else p.next + 1 }))
