-- ===== src/EventLoopThread/Locked/Refine.antt =====
-- The steps of mtnet/EventLoopThread.cc under the mutex, seen as those of `Handshake`, where each
-- section under the mutex is one step.
use mtnet.Prelude.{refl, ap, ◌∙◌, ℕ}
use mtnet.EventLoopThread.{EventLoopThread, is_null}
use mtnet.EventLoopThread.Handshake as Handshake
use mtnet.Sync.{Pthread, IsPosix}
use mtnet.EventLoopThread.Locked.Defs.{
  Caller, before, returned, Worker, CallerMove, starts, locks, waits, wakes, finds, leaves, returns,
  WorkerMove, builds, acquires, stores, notifies, releases, World, start, caller_moves,
  worker_moves, Steps, here, next, spurious,
}
use mtnet.EventLoopThread.Locked.Invariant.{Inv}
use mtnet.EventLoopThread.Locked.Rank.{Steps-Inv}

abbrev pub coarse_caller : Caller → Handshake.Caller
coarse_caller before = Handshake.Caller.before
coarse_caller (returned o) = Handshake.Caller.returned o
coarse_caller _ = Handshake.Caller.waiting

abbrev pub coarse : {p : Pthread} {address : ℕ} → World p address → Handshake.World
coarse w = record { thread = w.thread; caller = coarse_caller w.caller }

module _ {p : Pthread} (law : IsPosix p) (address : ℕ) where
  abbrev Coarse : EventLoopThread → Caller → Type 0
  Coarse t c =
      Handshake.Steps address Handshake.start (record { thread = t; caller = coarse_caller c })

  CallerMove-Coarse :
      {s r : p.State} {t u : EventLoopThread} {c d : Caller} {k : Worker}
      → CallerMove p address s t c r u d
      → Inv p address s t c k
      → Coarse t c
      → Coarse u d
  CallerMove-Coarse (starts {u = u} e) i run =
      Handshake.Steps.next run (Handshake.Step.calls u refl e)
  CallerMove-Coarse (locks e) i run = run
  CallerMove-Coarse (waits null e) i run = run
  CallerMove-Coarse (wakes e) i run = run
  CallerMove-Coarse (finds set) i run = run
  CallerMove-Coarse (leaves e) i run = run
  CallerMove-Coarse returns i run =
      Handshake.Steps.next run (Handshake.Step.returns refl (ap is_null (i.stored ∙ i.found refl)))

  WorkerMove-Coarse :
      {s r : p.State} {t u : EventLoopThread} {c : Caller} {k m : Worker}
      → WorkerMove p address s t k r u m
      → Inv p address s t c k
      → Coarse t c
      → Coarse u c
  WorkerMove-Coarse (builds up) i run = run
  WorkerMove-Coarse (acquires e) i run = run
  WorkerMove-Coarse stores i run =
      Handshake.Steps.next run (Handshake.Step.publishes (i.born refl) (ap is_null i.stored))
  WorkerMove-Coarse (notifies e) i run = run
  WorkerMove-Coarse (releases e) i run = run

  -- Every run of the two threads, lock by lock, is a run of `Handshake`: what the sections under
  -- the mutex do is as if each were one step, and the waits, the signals and the wake-ups without
  -- a signal do not show.
  pub Steps-coarse :
      {n m : ℕ} {w : World p address}
      → Steps p address (start p address) n m w
      → Handshake.Steps address Handshake.start (coarse w)
  Steps-coarse here = Handshake.Steps.here
  Steps-coarse (next {u = u} us (caller_moves m)) =
      CallerMove-Coarse m (Steps-Inv law address us) (Steps-coarse us)
  Steps-coarse (next {u = u} us (worker_moves m)) =
      WorkerMove-Coarse m (Steps-Inv law address us) (Steps-coarse us)
  Steps-coarse (spurious us e wake) = Steps-coarse us
