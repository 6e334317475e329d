-- ===== src/EventLoop/Order.antt =====
-- The functors are called once each, in the order in which they were queued.
use mtnet.Prelude.{
  ℕ, ◌≡◌, refl, sym, ap, ◌∙◌, List, [], ◌∷◌, ◌++◌, append-nil, append_assoc, ok, arith,
}
use mtnet.EventLoop.Defs.{
  EventLoop, Phase, stopped, polling, handling, calling, push_functor, wakeup_if_needed,
  handle_read, queue_in_loop, set_quit, quit_loop, poll_returns, begin_pending, advance,
  end_pending, begin_loop,
}
use mtnet.EventLoop.Steps.{
  World, start, Step, Steps, here, next, other_push, other_quit, other_wake, own_queue, own_quit,
  wakes, reads, swaps, calls, ends,
}

-- The functors of the running `doPendingFunctors` that are left.
abbrev pub left : Phase → List ℕ
left stopped = []
left polling = []
left handling = []
left (calling rest) = rest

-- Called, left in this round, and waiting for the next.
abbrev pub history : World → List ℕ
history w = w.called ++ (left w.loop.phase ++ w.loop.pending_functors)

push-history :
    (w : World) (cb : ℕ) (s : EventLoop)
    → s.phase ≡ w.loop.phase
    → s.pending_functors ≡ w.loop.pending_functors ++ cb ∷ []
    → w.called ++ (left s.phase ++ s.pending_functors) ≡ history w ++ cb ∷ []
push-history w cb s ph p = rw (
  ph,
  p,
  append_assoc w.called (left w.loop.phase ++ w.loop.pending_functors) (cb ∷ []),
  append_assoc (left w.loop.phase) w.loop.pending_functors (cb ∷ []),
)

same-history :
    (w : World) (s : EventLoop)
    → s.phase ≡ w.loop.phase
    → s.pending_functors ≡ w.loop.pending_functors
    → w.called ++ (left s.phase ++ s.pending_functors) ≡ history w
same-history w s ph p = rw (ph, p)

queue_in_loop-fields :
    (tid cb : ℕ) (s : EventLoop)
    → ((queue_in_loop tid cb s).phase ≡ s.phase)
      × ((queue_in_loop tid cb s).pending_functors ≡ s.pending_functors ++ cb ∷ [])
unfolding queue_in_loop
queue_in_loop-fields tid cb s = ground arith

wakeup_if_needed-fields :
    (tid : ℕ) (s : EventLoop)
    → ((wakeup_if_needed tid s).phase ≡ s.phase)
      × ((wakeup_if_needed tid s).pending_functors ≡ s.pending_functors)
unfolding wakeup_if_needed
wakeup_if_needed-fields tid s = ground arith

quit_loop-fields :
    (tid : ℕ) (s : EventLoop)
    → ((quit_loop tid s).phase ≡ s.phase)
      × ((quit_loop tid s).pending_functors ≡ s.pending_functors)
unfolding quit_loop
quit_loop-fields tid s = ground arith

end_pending-fields :
    (s : EventLoop)
    → (left (end_pending s).phase ≡ []) × ((end_pending s).pending_functors ≡ s.pending_functors)
unfolding end_pending
end_pending-fields s = ground arith

Step-history : {w v : World} → Step w v → history w ≡ w.pushed → history v ≡ v.pushed
unfolding push_functor set_quit poll_returns handle_read begin_pending advance
Step-history {w} (other_push cb) h =
    push-history w cb (push_functor cb w.loop) refl refl ∙ ap (λ l. l ++ cb ∷ []) h
Step-history {w} other_quit h = h
Step-history {w} (other_wake tid n other one) h =
    let f = wakeup_if_needed-fields tid w.loop in
    same-history w (wakeup_if_needed tid w.loop) f.0 f.1 ∙ h
Step-history {w} (own_queue cb run) h =
    let f = queue_in_loop-fields w.loop.thread_id cb w.loop in
    push-history w cb (queue_in_loop w.loop.thread_id cb w.loop) f.0 f.1 ∙ ap (λ l. l ++ cb ∷ []) h
Step-history {w} (own_quit run) h =
    let f = quit_loop-fields w.loop.thread_id w.loop in
    same-history w (quit_loop w.loop.thread_id w.loop) f.0 f.1 ∙ h
Step-history {w} (wakes ph) h =
    ap (λ x. w.called ++ (left x ++ w.loop.pending_functors)) (sym ph) ∙ h
Step-history {w} (reads ph) h = h
Step-history {w} (swaps ph) h =
    ap (◌++◌ w.called) (append-nil w.loop.pending_functors)
    ∙ ap (λ x. w.called ++ (left x ++ w.loop.pending_functors)) (sym ph)
    ∙ h
Step-history {w} (calls cb rest ph) h =
    append_assoc w.called (cb ∷ []) (rest ++ w.loop.pending_functors)
    ∙ ap (λ x. w.called ++ (left x ++ w.loop.pending_functors)) (sym ph)
    ∙ h
Step-history {w} (ends ph) h =
    let f = end_pending-fields w.loop in
    ap (λ l. w.called ++ (l ++ (end_pending w.loop).pending_functors)) f.0
    ∙ ap (◌++◌ w.called) f.1
    ∙ ap (λ x. w.called ++ (left x ++ w.loop.pending_functors)) (sym ph)
    ∙ h

Steps-history : {w v : World} → history w ≡ w.pushed → Steps w v → history v ≡ v.pushed
Steps-history h here = h
Steps-history h (next ss st) = Step-history st (Steps-history h ss)

begin_loop-history :
    (s t : EventLoop) → s.pending_functors ≡ [] → begin_loop s ≡ ok t → history (start t) ≡ []
unfolding begin_loop
begin_loop-history s t empty started = ground arith

-- In every interleaving of a loop that `loop()` started with an empty queue, the functors called so
-- far, those left of the current round and those waiting are together exactly the functors that were
-- queued, in the order in which they were queued: none is lost, called twice or overtaken.
pub functors_in_order :
    (s t : EventLoop) {v : World}
    → s.pending_functors ≡ []
    → begin_loop s ≡ ok t
    → Steps (start t) v
    → v.called ++ (left v.loop.phase ++ v.loop.pending_functors) ≡ v.pushed
functors_in_order s t empty started ss = Steps-history (begin_loop-history s t empty started) ss
