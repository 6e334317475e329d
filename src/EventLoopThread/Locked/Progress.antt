-- ===== src/EventLoopThread/Locked/Progress.antt =====
-- `startLoop` of mtnet/EventLoopThread.cc returns: the two threads cannot block each other, and
-- they move only so often.
use mtnet.Prelude.{
  ℕ, ◌+◌, ◌*◌, ◌≤◌, ◌≡◌, ◌⊎◌, refl, sym, ap, ◌∙◌, Bool, true, false, not, ◌&&◌, none, some,
  Bool-cases, inl, inr, arith,
}
use mtnet.EventLoopThread.{EventLoopThread, begin_start_loop, is_waiting}
use mtnet.Sync.{Pthread, IsPosix, woken}
use mtnet.EventLoopThread.Locked.Defs.{
  Caller, before, locking, testing, waiting, leaving, left, returned, Worker, building, acquiring,
  storing, notifying, releasing, looping, CallerMove, starts, locks, waits, wakes, finds, leaves,
  returns, WorkerMove, builds, acquires, stores, notifies, releases, World, start, Step,
  caller_moves, worker_moves, Steps,
}
use mtnet.EventLoopThread.Locked.Invariant.{
  is_inside, is_inside_worker, owner_of, is_before, will_notify, Inv, true-false,
}
use mtnet.EventLoopThread.Locked.Rank.{Steps-Inv, Steps-rank}

not-true : (b : Bool) → false ≡ not b → b ≡ true
not-true true h = refl
not-true false h = cc

true-not : (b : Bool) → true ≡ not b → b ≡ false
true-not true h = cc
true-not false h = refl

module _ {p : Pthread} (law : IsPosix p) (address : ℕ) where
  abbrev WorkerMoves : p.State → EventLoopThread → Worker → Type 0
  WorkerMoves s t k =
      (r : p.State) × (u : EventLoopThread) × (m : Worker) × WorkerMove p address s t k r u m

  -- Unless the caller is inside, or has not started it, the worker can move.
  WorkerMoves-outside :
      {s : p.State} {t : EventLoopThread} {c : Caller} (k : Worker)
      → Inv p address s t c k
      → is_inside c ≡ false
      → is_before c ≡ false
      → (k ≡ looping) ⊎ WorkerMoves s t k
  WorkerMoves-outside {s} {t} {c} building i out on =
      inr (s, t, acquiring, builds (not-true t.started (sym on ∙ i.started)))
  WorkerMoves-outside {s} {t} {c} acquiring i out on =
      let (r, locked) = law.locks 1 s (i.owned ∙ ap (λ b. owner_of b false) out) in
      inr (r, t, storing, acquires locked)
  WorkerMoves-outside {s} {t} {c} storing i out on = inr (s, _, notifying, stores)
  WorkerMoves-outside {s} {t} {c} notifying i out on =
      let (r, signalled) = law.signals s in inr (r, t, releasing, notifies signalled)
  WorkerMoves-outside {s} {t} {c} releasing i out on =
      let (r, unlocked) = law.unlocks 1 s (i.owned ∙ ap (λ b. owner_of b true) out) in
      inr (r, t, looping, releases unlocked)
  WorkerMoves-outside {s} {t} {c} looping i out on = inl refl

  abbrev CallerMoves : p.State → EventLoopThread → Caller → Type 0
  CallerMoves s t c =
      (r : p.State) × (u : EventLoopThread) × (d : Caller) × CallerMove p address s t c r u d

  abbrev Moves : p.State → EventLoopThread → Caller → Worker → Type 0
  Moves s t c k = CallerMoves s t c ⊎ WorkerMoves s t k

  -- A caller that needs the mutex can have it, or the worker that has it can move.
  Moves-free :
      {s : p.State} {t : EventLoopThread} {c : Caller} (k : Worker)
      → Inv p address s t c k
      → is_inside c ≡ false
      → is_before c ≡ false
      → (p.owner s ≡ none → CallerMoves s t c)
      → Moves s t c k
  Moves-free {s} {t} {c} k i out on use_it = elim (Bool-cases (is_inside_worker k)) [
    | inl taken ↦ elim (WorkerMoves-outside k i out on) [
      | inl e ↦ absurd (true-false taken (ap is_inside_worker e))
      | inr m ↦ inr m
    ]
    | inr free ↦ inl (use_it (i.owned ∙ rw (out, free) refl))
  ]

  Inv-Moves :
      {s : p.State} {t : EventLoopThread} (c : Caller) {k : Worker}
      → Inv p address s t c k
      → ((c ≡ returned (some address)) × (k ≡ looping)) ⊎ Moves s t c k
  unfolding begin_start_loop
  Inv-Moves {s} {t} before i = inr (
      inl
        (s, record t { started = true }, locking, starts (rw (true-not t.started i.started) refl)))
  Inv-Moves {s} {t} locking {k} i = inr (
      Moves-free k i refl refl
        (λ free. let (r, locked) = law.locks 0 s free in (r, t, testing, locks locked)))
  Inv-Moves {s} {t} testing i = elim (Bool-cases (is_waiting t)) [
    | inl null ↦
        let (r, waited) = law.waits 0 s i.owned in inr (inl (r, t, waiting, waits null waited))
    | inr set ↦ inr (inl (s, t, leaving, finds set))
  ]
  Inv-Moves {s} {t} waiting {k} i = elim (Bool-cases (p.asleep s 0)) [
    | inl slept ↦ elim (WorkerMoves-outside k i refl refl) [
      | inl e ↦ absurd (true-false (i.heard slept) (ap will_notify e))
      | inr m ↦ inr (inr m)
    ]
    | inr up ↦ inr (
        Moves-free k i refl refl (λ free.
          let (r, locked) = law.locks 0 s free in (r, t, testing, wakes (woken up locked))))
  ]
  Inv-Moves {s} {t} leaving i =
      let (r, unlocked) = law.unlocks 0 s i.owned in inr (inl (r, t, left, leaves unlocked))
  Inv-Moves {s} {t} left i = inr (inl (s, t, returned t.loop, returns))
  Inv-Moves {s} {t} (returned o) {k} i = elim (WorkerMoves-outside k i refl refl) [
    | inl e ↦ inl (ap returned i.answer, e)
    | inr m ↦ inr (inr m)
  ]

  Moves-Step :
      (w : World p address)
      → Moves w.state w.thread w.caller w.worker
      → (v : World p address) × Step p address w v
  Moves-Step w (inl (r, u, d, m)) = (_, caller_moves m)
  Moves-Step w (inr (r, u, m, k)) = (_, worker_moves k)

  -- From the call of `startLoop` on, whatever pthread does within POSIX: the two threads are never
  -- both inside the mutex; their steps are at most 13, and two more for each time that the caller
  -- is woken without a signal; and while the caller has not returned the address of the loop or
  -- the new thread is not in its loop, one of the two can take a step. So no signal is lost, and
  -- `startLoop` returns the address.
  pub start_loop-returned :
      {n m : ℕ} {w : World p address}
      → Steps p address (start p address) n m w
      → ((is_inside w.caller && is_inside_worker w.worker) ≡ false)
        × (n ≤ 13 + 2 * m)
        × (((w.caller ≡ returned (some address)) × (w.worker ≡ looping))
            ⊎ ((v : World p address) × Step p address w v))
  start_loop-returned {w = w} run =
      let i = Steps-Inv law address run in
      let few = Steps-rank law address run in
      (
        i.apart,
        omega (arith, few),
        elim (Inv-Moves w.caller i) [ inl e ↦ inl e | inr m ↦ inr (Moves-Step w m) ],
      )
