-- ===== src/EventLoop/Wakeup.antt =====
-- No wakeup is lost.
use mtnet.Prelude.{
  ℕ, suc, ◌+◌, ◌≡◌, ◌≢◌, ◌<◌, ◌⊎◌, refl, sym, ◌∙◌, subst, inl, inr, Bool, true, false, ◌==◌, List,
  [], ◌∷◌, ◌++◌, ok, arith, Bool-cases, ==_iff,
}
use mtnet.EventLoop.Defs.{
  EventLoop, Phase, stopped, polling, handling, calling, wakeup, handle_read, push_functor,
  wakeup_if_needed, queue_in_loop, set_quit, quit_loop, poll_returns, begin_pending, advance,
  end_pending, begin_loop,
}
use mtnet.EventLoop.Steps.{
  World, start, IsRunning, in_handler, in_functor, Step, Steps, here, next, other_push, other_quit,
  other_wake, own_queue, own_quit, wakes, reads, swaps, calls, ends,
}

-- In `poll` nothing waits, or a wakeup is due. In `doPendingFunctors` the flag says so, and nothing
-- waits for the next round, or a wakeup is due.
abbrev pub Ready : Phase → List ℕ → Bool → Bool → ℕ → Type 0
Ready stopped pending quit flag due = Unit
Ready polling pending quit flag due = ((pending ≡ []) × (quit ≡ false)) ⊎ (0 < due)
Ready handling pending quit flag due = Unit
Ready (calling rest) pending quit flag due = (flag ≡ true) × ((pending ≡ []) ⊎ (0 < due))

-- A wakeup is due while the eventfd's counter is not zero or another thread is about to write to it.
abbrev pub due_wakeups : World → ℕ
due_wakeups w = w.loop.wakeup_count + w.waking

abbrev pub IsReady : World → Type 0
IsReady w =
    Ready w.loop.phase w.loop.pending_functors w.loop.quit w.loop.calling_pending_functors
      (due_wakeups w)

-- With a wakeup due the queue and `quit_` may be anything.
signalled :
    (ph : Phase) (p p' : List ℕ) (q q' flag : Bool) (n m : ℕ)
    → Ready ph p q flag n
    → 0 < m
    → Ready ph p' q' flag m
signalled stopped p p' q q' flag n m h k = tt
signalled polling p p' q q' flag n m h k = inr k
signalled handling p p' q q' flag n m h k = tt
signalled (calling rest) p p' q q' flag n m h k = (h.0, inr k)

wakeup-count : (s : EventLoop) → 0 < (wakeup s).wakeup_count
unfolding wakeup
wakeup-count s = ground arith

wakeup_if_needed-other :
    (tid : ℕ) (s : EventLoop) → s.thread_id ≢ tid → wakeup_if_needed tid s ≡ wakeup s
unfolding wakeup_if_needed
wakeup_if_needed-other tid s h = let e : (s.thread_id == tid) ≡ false = ground arith in rw e

wakeup_if_needed-calling :
    (s : EventLoop) → s.calling_pending_functors ≡ true → wakeup_if_needed s.thread_id s ≡ wakeup s
unfolding wakeup_if_needed
wakeup_if_needed-calling s h =
    let e : (s.thread_id == s.thread_id) ≡ true = (==_iff _ _).1 refl in simp (e, h)

quit_loop-own : (s : EventLoop) → quit_loop s.thread_id s ≡ set_quit s
unfolding quit_loop
quit_loop-own s = let e : (s.thread_id == s.thread_id) ≡ true = (==_iff _ _).1 refl in rw e

running_phase :
    (ph : Phase) → IsRunning ph → (ph ≡ handling) ⊎ ((rest : List ℕ) × (ph ≡ calling rest))
running_phase ph in_handler = inl refl
running_phase ph (in_functor rest) = inr (rest, refl)

queue_in_loop-phase : (tid cb : ℕ) (s : EventLoop) → (queue_in_loop tid cb s).phase ≡ s.phase
unfolding queue_in_loop
queue_in_loop-phase tid cb s = ground arith

-- In a handler nothing is asked for.
Ready-handling :
    (ph : Phase) (p : List ℕ) (q flag : Bool) (n : ℕ) → ph ≡ handling → Ready ph p q flag n
Ready-handling ph p q flag n e = subst (λ x. Ready x p q flag n) (sym e) tt

Ready-flag :
    (ph : Phase) (p : List ℕ) (q flag : Bool) (n : ℕ) (rest : List ℕ)
    → ph ≡ calling rest
    → Ready ph p q flag n
    → flag ≡ true
Ready-flag ph p q flag n rest e r = (subst (λ x. Ready x p q flag n) e r).0

module _ (w : World) (r : IsReady w) where
  push-IsReady :
      (cb : ℕ)
      → IsReady (record w {
        loop = push_functor cb w.loop;
        waking = suc w.waking;
        pushed = w.pushed ++ cb ∷ [];
      })
  unfolding push_functor
  push-IsReady cb = signalled w.loop.phase _ _ _ _ _ _ _ r (omega arith)

  set_quit-IsReady : IsReady (record w { loop = set_quit w.loop; waking = suc w.waking })
  unfolding set_quit
  set_quit-IsReady = signalled w.loop.phase _ _ _ _ _ _ _ r (omega arith)

  wake-IsReady :
      (tid n : ℕ)
      → w.loop.thread_id ≢ tid
      → IsReady (record w { loop = wakeup_if_needed tid w.loop; waking = n })
  wake-IsReady tid n other =
      subst (λ s. IsReady (record w { loop = s; waking = n }))
        (sym (wakeup_if_needed-other tid w.loop other))
        (unfold wakeup in
          signalled w.loop.phase _ _ _ _ _ _ _ r (omega (arith, wakeup-count w.loop)))

  -- A functor that queues another one sets a wakeup; a handler need not.
  queue-IsReady :
      (cb : ℕ)
      → IsRunning w.loop.phase
      → IsReady (record w {
        loop = queue_in_loop w.loop.thread_id cb w.loop;
        pushed = w.pushed ++ cb ∷ [];
      })
  unfolding queue_in_loop
  queue-IsReady cb run = elim (running_phase w.loop.phase run) [
    | inl e ↦ Ready-handling _ _ _ _ _ (queue_in_loop-phase w.loop.thread_id cb w.loop ∙ e)
    | inr (rest, e) ↦
        let flag = Ready-flag w.loop.phase _ _ _ _ rest e r in
        subst (λ s. IsReady (record w { loop = s; pushed = w.pushed ++ cb ∷ [] }))
          (sym (wakeup_if_needed-calling (push_functor cb w.loop) flag))
          (unfold wakeup push_functor in
            signalled w.loop.phase _ _ _ _ _ _ _ r
              (omega (arith, wakeup-count (push_functor cb w.loop))))
  ]

  own_quit-IsReady :
      IsRunning w.loop.phase → IsReady (record w { loop = quit_loop w.loop.thread_id w.loop })
  unfolding set_quit
  own_quit-IsReady run =
      subst (λ s. IsReady (record w { loop = s })) (sym (quit_loop-own w.loop))
        (elim (running_phase w.loop.phase run) [
          | inl e ↦ Ready-handling _ _ _ _ _ e
          | inr (rest, e) ↦
              subst
                (λ x.
                  Ready x w.loop.pending_functors true w.loop.calling_pending_functors
                    (due_wakeups w))
                (sym e)
                (subst
                  (λ x.
                    Ready x w.loop.pending_functors w.loop.quit w.loop.calling_pending_functors
                      (due_wakeups w))
                  e r)
        ])

  -- After `doPendingFunctors` the loop polls only if `quit_` is not set.
  end-IsReady : w.loop.phase ≡ calling [] → IsReady (record w { loop = end_pending w.loop })
  unfolding end_pending
  end-IsReady e =
      let calm =
        subst
          (λ x.
            Ready x w.loop.pending_functors w.loop.quit w.loop.calling_pending_functors
              (due_wakeups w))
          e r in
      elim (Bool-cases w.loop.quit) [
        | inl q ↦ simp q tt
        | inr q ↦ simp q (elim calm.1 [ inl p ↦ inl (p, refl) | inr k ↦ inr k ])
      ]

Step-IsReady : {w v : World} → Step w v → IsReady w → IsReady v
unfolding poll_returns handle_read begin_pending advance
Step-IsReady {w} (other_push cb) r = push-IsReady w r cb
Step-IsReady {w} other_quit r = set_quit-IsReady w r
Step-IsReady {w} (other_wake tid n other one) r = wake-IsReady w r tid n other
Step-IsReady {w} (own_queue cb run) r = queue-IsReady w r cb run
Step-IsReady {w} (own_quit run) r = own_quit-IsReady w r run
Step-IsReady {w} (wakes ph) r = tt
Step-IsReady {w} (reads ph) r = Ready-handling _ _ _ _ _ ph
Step-IsReady {w} (swaps ph) r = (refl, inl refl)
Step-IsReady {w} (calls cb rest ph) r =
    subst
      (λ x.
        Ready x w.loop.pending_functors w.loop.quit w.loop.calling_pending_functors (due_wakeups w))
      ph r
Step-IsReady {w} (ends ph) r = end-IsReady w r ph

pub Steps-IsReady : {w v : World} → IsReady w → Steps w v → IsReady v
Steps-IsReady r here = r
Steps-IsReady r (next ss st) = Step-IsReady st (Steps-IsReady r ss)

begin_loop-fields :
    (s t : EventLoop)
    → begin_loop s ≡ ok t
    → (t.phase ≡ polling) × (t.quit ≡ false) × (t.pending_functors ≡ s.pending_functors)
unfolding begin_loop
begin_loop-fields s t h = ground arith

-- In every interleaving of a loop that `loop()` started with an empty queue: whenever the loop is in
-- `poll`, either no functor is waiting and `quit_` is not set, or a wakeup is due, the eventfd being
-- readable or another thread being about to write to it.
pub no_lost_wakeup :
    (s t : EventLoop) {v : World}
    → s.pending_functors ≡ []
    → begin_loop s ≡ ok t
    → Steps (start t) v
    → v.loop.phase ≡ polling
    → ((v.loop.pending_functors ≡ []) × (v.loop.quit ≡ false)) ⊎ (0 < due_wakeups v)
no_lost_wakeup s t {v} empty started ss e =
    let (ph, quit, pending) = begin_loop-fields s t started in
    let ready : IsReady (start t) =
      subst (λ x. Ready x t.pending_functors t.quit t.calling_pending_functors (t.wakeup_count + 0))
        (sym ph) (inl (pending ∙ empty, quit)) in
    subst
      (λ x.
        Ready x v.loop.pending_functors v.loop.quit v.loop.calling_pending_functors (due_wakeups v))
      e (Steps-IsReady ready ss)
