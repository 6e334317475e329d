-- ===== src/EventLoopThread/Locked/Rank.antt =====
-- How many steps `startLoop` and `threadFunc` of mtnet/EventLoopThread.cc have left.
use mtnet.Prelude.{ℕ, ◌+◌, ◌*◌, ◌≤◌, ◌≡◌, refl, ap, Bool, true, false, arith}
use mtnet.EventLoopThread.{EventLoopThread}
use mtnet.Sync.{Pthread, IsPosix, woken}
use mtnet.EventLoopThread.Locked.Defs.{
  Caller, before, locking, testing, waiting, leaving, left, returned, Worker, building, acquiring,
  storing, notifying, releasing, looping, CallerMove, starts, locks, waits, wakes, finds, leaves,
  returns, WorkerMove, builds, acquires, stores, notifies, releases, World, start, Step,
  caller_moves, worker_moves, Steps, here, next, spurious,
}
use mtnet.EventLoopThread.Locked.Invariant.{Inv, true-false}
use mtnet.EventLoopThread.Locked.CallerMoves.{CallerMove-Inv}
use mtnet.EventLoopThread.Locked.WorkerMoves.{WorkerMove-Inv, spurious-Inv, start-Inv}

-- How many moves are left, where a sleeping caller still has its signal before it.
abbrev pub caller_rank : Bool → Caller → ℕ
caller_rank asleep before = 6
caller_rank asleep locking = 5
caller_rank asleep testing = 4
caller_rank true waiting = 3
caller_rank false waiting = 5
caller_rank asleep leaving = 2
caller_rank asleep left = 1
caller_rank asleep (returned o) = 0

abbrev pub worker_rank : Worker → ℕ
worker_rank building = 7
worker_rank acquiring = 6
worker_rank storing = 5
worker_rank notifying = 4
worker_rank releasing = 1
worker_rank looping = 0

-- A caller that is woken meanwhile has at most two more moves.
caller_rank-woken :
    (a b : Bool) (c : Caller) → (b ≡ true → a ≡ true) → caller_rank b c ≤ caller_rank a c + 2
caller_rank-woken a b before h = omega arith
caller_rank-woken a b locking h = omega arith
caller_rank-woken a b testing h = omega arith
caller_rank-woken true true waiting h = omega arith
caller_rank-woken true false waiting h = omega arith
caller_rank-woken false true waiting h = absurd (true-false (h refl) refl)
caller_rank-woken false false waiting h = omega arith
caller_rank-woken a b leaving h = omega arith
caller_rank-woken a b left h = omega arith
caller_rank-woken a b (returned o) h = omega arith

module _ {p : Pthread} (law : IsPosix p) (address : ℕ) where
  abbrev Right : World p address → Type 0
  Right w = Inv p address w.state w.thread w.caller w.worker

  abbrev pub rank : p.State → Caller → Worker → ℕ
  rank s c k = caller_rank (p.asleep s 0) c + worker_rank k

  CallerMove-rank :
      {s r : p.State} {t u : EventLoopThread} {c d : Caller} (k : Worker)
      → CallerMove p address s t c r u d
      → rank r d k + 1 ≤ rank s c k
  CallerMove-rank k (starts e) = omega arith
  CallerMove-rank k (locks e) = omega arith
  CallerMove-rank k (waits {s} {r} null e) =
      let a = ap (λ b. caller_rank b waiting) (law.wait_asleep 0 s r e) in omega (arith, a)
  CallerMove-rank k (wakes {s} {r} (woken up e)) =
      let a = ap (λ b. caller_rank b waiting) up in omega (arith, a)
  CallerMove-rank k (finds set) = omega arith
  CallerMove-rank k (leaves e) = omega arith
  CallerMove-rank k returns = omega arith

  WorkerMove-rank :
      {s r : p.State} {t u : EventLoopThread} (c : Caller) {k m : Worker}
      → WorkerMove p address s t k r u m
      → rank r c m + 1 ≤ rank s c k
  WorkerMove-rank c (builds up) = omega arith
  WorkerMove-rank c (acquires {s} {r} e) =
      let a = ap (λ b. caller_rank b c) (law.lock_asleep 1 s r e 0) in omega (arith, a)
  WorkerMove-rank c stores = omega arith
  WorkerMove-rank c (notifies {s} {r} e) =
      let a = caller_rank-woken (p.asleep s 0) (p.asleep r 0) c (law.signal_only s r e 0) in
      omega (arith, a)
  WorkerMove-rank c (releases {s} {r} e) =
      let a = ap (λ b. caller_rank b c) (law.unlock_asleep 1 s r e 0) in omega (arith, a)

  Step-Inv : {w v : World p address} → Step p address w v → Right w → Right v
  Step-Inv (caller_moves m) i = CallerMove-Inv law m i
  Step-Inv (worker_moves m) i = WorkerMove-Inv law m i

  pub Steps-Inv :
      {n m : ℕ} {w : World p address} → Steps p address (start p address) n m w → Right w
  Steps-Inv here = start-Inv law
  Steps-Inv (next us step) = Step-Inv step (Steps-Inv us)
  Steps-Inv (spurious us e wake) = spurious-Inv law wake (Steps-Inv us)

  Step-rank :
      {w v : World p address}
      → Step p address w v
      → rank v.state v.caller v.worker + 1 ≤ rank w.state w.caller w.worker
  Step-rank {w} (caller_moves m) = CallerMove-rank w.worker m
  Step-rank {w} (worker_moves m) = WorkerMove-rank w.caller m

  pub Steps-rank :
      {n m : ℕ} {w : World p address}
      → Steps p address (start p address) n m w
      → n + rank w.state w.caller w.worker ≤ 13 + 2 * m
  Steps-rank here = omega arith
  Steps-rank (next us step) = let a = Steps-rank us in let b = Step-rank step in omega (arith, a, b)
  Steps-rank (spurious {u = u} {s = s} us e wake) =
      let a = Steps-rank us in
      let b =
        caller_rank-woken (p.asleep u.state 0) (p.asleep s 0) u.caller
          (law.spurious_only 0 u.state s wake 0) in
      omega (arith, a, b)
