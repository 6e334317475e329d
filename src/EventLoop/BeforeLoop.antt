-- ===== src/EventLoop/BeforeLoop.antt =====
-- Calls of `queueInLoop` and `quit` before the loop's `loop()` is started.
use mtnet.Prelude.{
  ℕ, ◌+◌, ◌≡◌, ◌≤◌, ◌<◌, refl, sym, ap, ◌∙◌, inl, inr, true, false, ◌==◌, List, [], ◌∷◌, ◌++◌,
  length, append-nil, append_assoc, if◌then◌else◌, ok, arith, Bool-cases,
}
use mtnet.EventLoop.Defs.{
  EventLoop, polling, max_count, wakeup, push_functor, wakeup_if_needed, queue_in_loop, set_quit,
  quit_loop, begin_loop,
}

-- A call, with the thread that makes it.
pub data Call : Type 0 where
  queues : (tid cb : ℕ) → Call
  quits : (tid : ℕ) → Call

unfoldable pub make : Call → EventLoop → EventLoop
make (queues tid cb) s = queue_in_loop tid cb s
make (quits tid) s = quit_loop tid s

unfoldable pub make_all : List Call → EventLoop → EventLoop
make_all [] s = s
make_all (c ∷ cs) s = make_all cs (make c s)

-- The functors of calls.
abbrev pub queued : List Call → List ℕ
queued [] = []
queued (queues tid cb ∷ cs) = cb ∷ queued cs
queued (quits tid ∷ cs) = queued cs

abbrev pub caller : Call → ℕ
caller (queues tid cb) = tid
caller (quits tid) = tid

-- How many of the calls are made outside the loop's own thread.
abbrev pub foreign : ℕ → List Call → ℕ
foreign own [] = 0
foreign own (c ∷ cs) = let rest = foreign own cs in if own == caller c then rest else 1 + rest

-- What the calls leave of a loop that is not in `doPendingFunctors`.
record Made (cs : List Call) (s t : EventLoop) : Type 0 where
  looping : t.looping ≡ s.looping
  pending : t.pending_functors ≡ s.pending_functors ++ queued cs
  count : t.wakeup_count ≡ s.wakeup_count + foreign s.thread_id cs

make-looping : (c : Call) (s : EventLoop) → (make c s).looping ≡ s.looping
unfolding make queue_in_loop push_functor wakeup_if_needed quit_loop set_quit wakeup
make-looping (queues tid cb) s = ground arith
make-looping (quits tid) s = ground arith

make-thread_id : (c : Call) (s : EventLoop) → (make c s).thread_id ≡ s.thread_id
unfolding make queue_in_loop push_functor wakeup_if_needed quit_loop set_quit wakeup
make-thread_id (queues tid cb) s = ground arith
make-thread_id (quits tid) s = ground arith

make-calling :
    (c : Call) (s : EventLoop) → (make c s).calling_pending_functors ≡ s.calling_pending_functors
unfolding make queue_in_loop push_functor wakeup_if_needed quit_loop set_quit wakeup
make-calling (queues tid cb) s = ground arith
make-calling (quits tid) s = ground arith

make-pending :
    (c : Call) (s : EventLoop) → (make c s).pending_functors ≡ s.pending_functors ++ queued (c ∷ [])
unfolding make queue_in_loop push_functor wakeup_if_needed quit_loop set_quit wakeup
make-pending (queues tid cb) s = ground arith
make-pending (quits tid) s = let nothing = append-nil s.pending_functors in ground (arith, nothing)

make-count :
    (c : Call) (s : EventLoop)
    → s.calling_pending_functors ≡ false
    → s.wakeup_count < max_count
    → (make c s).wakeup_count ≡ s.wakeup_count + foreign s.thread_id (c ∷ [])
unfolding make queue_in_loop push_functor wakeup_if_needed quit_loop set_quit wakeup
make-count (queues tid cb) s quiet room = ground (arith, quiet, room)
make-count (quits tid) s quiet room = ground (arith, room)

queued-cons : (c : Call) (cs : List Call) → queued (c ∷ cs) ≡ queued (c ∷ []) ++ queued cs
queued-cons (queues tid cb) cs = refl
queued-cons (quits tid) cs = refl

foreign-cons :
    (own : ℕ) (c : Call) (cs : List Call)
    → foreign own (c ∷ cs) ≡ foreign own (c ∷ []) + foreign own cs
foreign-cons own c cs = elim (Bool-cases (own == caller c)) [
  | inl mine ↦ rw mine (omega arith)
  | inr other ↦ rw other (omega arith)
]

foreign-few : (own : ℕ) (cs : List Call) → foreign own cs ≤ length cs
foreign-few own [] = omega arith
foreign-few own (c ∷ cs) =
    let few = foreign-few own cs in
    elim (Bool-cases (own == caller c)) [
      | inl mine ↦ rw mine (omega (arith, few))
      | inr other ↦ rw other (omega (arith, few))
    ]

make_all_lem :
    (cs : List Call) (s : EventLoop)
    → s.calling_pending_functors ≡ false
    → s.wakeup_count + length cs ≤ max_count
    → Made cs s (make_all cs s)
unfolding make_all
make_all_lem [] s quiet room = record {
  looping = refl;
  pending = sym (append-nil s.pending_functors);
  count = omega arith;
}
make_all_lem (c ∷ cs) s quiet room =
    let first = make-count c s quiet (omega (arith, room)) in
    let id = make-thread_id c s in
    let few = foreign-few s.thread_id (c ∷ []) in
    let r =
      make_all_lem cs (make c s) (make-calling c s ∙ quiet) (omega (arith, first, room, few)) in
    let last : (make_all cs (make c s)).wakeup_count
        ≡ (make c s).wakeup_count + foreign s.thread_id cs =
      r.count ∙ ap (λ k. (make c s).wakeup_count + foreign k cs) id in
    record {
      looping = r.looping ∙ make-looping c s;
      pending =
          r.pending
          ∙ ap (λ x. x ++ queued cs) (make-pending c s)
          ∙ append_assoc s.pending_functors (queued (c ∷ [])) (queued cs)
          ∙ ap (◌++◌ s.pending_functors) (sym (queued-cons c cs));
      count = omega (arith, last, first, foreign-cons s.thread_id c cs);
    }

-- While a loop is neither in `loop()` nor in `doPendingFunctors`, any threads may call `queueInLoop` and
-- `quit`, in any order, as often as the counter of the eventfd has room for. If `loop()` is called
-- then, it goes on to `poll` with `quit_` not set, so every one of those `quit()` is lost; the functors
-- wait, in the order of their calls, after those that waited before; and the eventfd has got one
-- wakeup for each call from another thread, and none for a call from the loop's own thread.
pub quit_before_loop :
    (cs : List Call) (s : EventLoop)
    → s.looping ≡ false
    → s.calling_pending_functors ≡ false
    → s.wakeup_count + length cs ≤ max_count
    → (t : EventLoop) × (begin_loop (make_all cs s) ≡ ok t)
      × (t.phase ≡ polling)
      × (t.quit ≡ false)
      × (t.pending_functors ≡ s.pending_functors ++ queued cs)
      × (t.wakeup_count ≡ s.wakeup_count + foreign s.thread_id cs)
unfolding begin_loop
quit_before_loop cs s out quiet room =
    let r = make_all_lem cs s quiet room in
    let stands : (make_all cs s).looping ≡ false = r.looping ∙ out in
    (
      record (make_all cs s) { looping = true; quit = false; phase = polling },
      rw stands refl,
      refl,
      refl,
      r.pending,
      r.count,
    )
