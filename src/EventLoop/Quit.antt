-- ===== src/EventLoop/Quit.antt =====
-- `loop()` of mtnet/EventLoop.cc as the loop's thread runs it, one step at a time, and its end.
use mtnet.Prelude.{
  ℕ, zero, suc, ◌≡◌, refl, sym, ap, ◌∙◌, List, [], ◌∷◌, ◌++◌, true, length, append-nil,
  append_assoc, arith, subst,
}
use mtnet.EventLoop.Defs.{
  Phase, stopped, polling, handling, calling, poll_returns, begin_pending, advance, end_pending,
  handle_read, push_functor, wakeup_if_needed, queue_in_loop, set_quit, quit_loop,
}
use mtnet.EventLoop.Steps.{
  World, Step, Steps, here, next, other_push, other_quit, other_wake, own_queue, own_quit, wakes,
  reads, swaps, calls, ends,
}

-- The next step of `loop()`.
unfoldable pub step_from : Phase → World → World
step_from stopped w = w
step_from polling w = record w { loop = poll_returns w.loop }
step_from handling w = record w { loop = begin_pending w.loop }
step_from (calling (cb ∷ rest)) w = record w {
  loop = advance rest w.loop;
  called = w.called ++ cb ∷ [];
}
step_from (calling []) w = record w { loop = end_pending w.loop }

unfoldable pub loop_steps : ℕ → World → World
unfolding step_from
loop_steps zero w = w
loop_steps (suc n) w = loop_steps n (step_from w.loop.phase w)

-- The functors that are called before the next test of `quit_`, and the steps up to that test.
abbrev pub functors_left : Phase → List ℕ → List ℕ
functors_left stopped pending = []
functors_left polling pending = pending
functors_left handling pending = pending
functors_left (calling rest) pending = rest

abbrev pub steps_left : Phase → List ℕ → ℕ
steps_left stopped pending = 0
steps_left polling pending = suc (suc (suc (length pending)))
steps_left handling pending = suc (suc (length pending))
steps_left (calling rest) pending = suc (length rest)

-- Nothing takes `quit_` back while the loop runs.
Step-quit : {w v : World} → Step w v → w.loop.quit ≡ true → v.loop.quit ≡ true
unfolding handle_read push_functor wakeup_if_needed queue_in_loop set_quit quit_loop poll_returns
    begin_pending advance end_pending
Step-quit (other_push cb) q = q
Step-quit other_quit q = refl
Step-quit {w} (other_wake tid n other one) q = ground arith
Step-quit {w} (own_queue cb run) q = ground arith
Step-quit {w} (own_quit run) q = ground arith
Step-quit (wakes ph) q = q
Step-quit (reads ph) q = q
Step-quit (swaps ph) q = q
Step-quit (calls cb rest ph) q = q
Step-quit {w} (ends ph) q = ground arith

Steps-quit : {w v : World} → Steps w v → w.loop.quit ≡ true → v.loop.quit ≡ true
Steps-quit here q = q
Steps-quit (next ss s) q = Step-quit s (Steps-quit ss q)

step_from-Steps : (ph : Phase) (w : World) → w.loop.phase ≡ ph → Steps w (step_from ph w)
unfolding step_from
step_from-Steps stopped w e = here
step_from-Steps polling w e = next here (wakes e)
step_from-Steps handling w e = next here (swaps e)
step_from-Steps (calling []) w e = next here (ends e)
step_from-Steps (calling (cb ∷ rest)) w e = next here (calls cb rest e)

Steps-trans : {u v w : World} → Steps u v → Steps v w → Steps u w
Steps-trans ss here = ss
Steps-trans ss (next ts t) = next (Steps-trans ss ts) t

loop_steps-Steps : (n : ℕ) (w : World) → Steps w (loop_steps n w)
unfolding loop_steps
loop_steps-Steps zero w = here
loop_steps-Steps (suc n) w =
    Steps-trans (step_from-Steps w.loop.phase w refl)
      (loop_steps-Steps n (step_from w.loop.phase w))

loop_steps-at :
    (n : ℕ) (ph : Phase) (w : World)
    → w.loop.phase ≡ ph
    → loop_steps (suc n) w ≡ loop_steps n (step_from ph w)
unfolding loop_steps
loop_steps-at n ph w e = ap (λ x. loop_steps n (step_from x w)) e

-- `loop()` has returned, and `fs` have been called since `w`.
abbrev pub Returned : List ℕ → World → World → Type 0
Returned fs w u = (u.loop.phase ≡ stopped) × (u.called ≡ w.called ++ fs)

returns_from_calling :
    (fs : List ℕ) (w : World)
    → w.loop.phase ≡ calling fs
    → w.loop.quit ≡ true
    → Returned fs w (loop_steps (suc (length fs)) w)
unfolding loop_steps step_from end_pending advance
returns_from_calling [] w e q =
    subst (Returned [] w) (sym (loop_steps-at 0 (calling []) w e))
      (rw q refl, sym (append-nil w.called))
returns_from_calling (f ∷ fs) w e q =
    let (ph, done) = returns_from_calling fs (step_from (calling (f ∷ fs)) w) refl q in
    subst (Returned (f ∷ fs) w) (sym (loop_steps-at (suc (length fs)) (calling (f ∷ fs)) w e))
      (ph, done ∙ append_assoc w.called (f ∷ []) fs)

returns_from_handling :
    (w : World)
    → w.loop.phase ≡ handling
    → w.loop.quit ≡ true
    → Returned w.loop.pending_functors w (loop_steps (suc (suc (length w.loop.pending_functors))) w)
returns_from_handling w e q =
    subst (Returned w.loop.pending_functors w)
      (sym (loop_steps-at (suc (length w.loop.pending_functors)) handling w e))
      (unfold step_from begin_pending in
        returns_from_calling w.loop.pending_functors (step_from handling w) refl q)

returns_from_polling :
    (w : World)
    → w.loop.phase ≡ polling
    → w.loop.quit ≡ true
    → Returned w.loop.pending_functors w
        (loop_steps (suc (suc (suc (length w.loop.pending_functors)))) w)
returns_from_polling w e q =
    subst (Returned w.loop.pending_functors w)
      (sym (loop_steps-at (suc (suc (length w.loop.pending_functors))) polling w e))
      (unfold step_from poll_returns in returns_from_handling (step_from polling w) refl q)

returns :
    (ph : Phase) (w : World)
    → w.loop.phase ≡ ph
    → w.loop.quit ≡ true
    → Returned
        (functors_left ph w.loop.pending_functors)
        w
        (loop_steps (steps_left ph w.loop.pending_functors) w)
returns stopped w e q = unfold loop_steps in (e, sym (append-nil w.called))
returns polling w e q = returns_from_polling w e q
returns handling w e q = returns_from_handling w e q
returns (calling fs) w e q = returns_from_calling fs w e q

-- Once `quit_` is set, by the loop's thread or by another one, it stays set in every interleaving until
-- `loop()` returns, and from every state that can be reached the loop's thread alone gets to the end of
-- `loop()` in at most 3 steps and one for each functor of the round that it is in: the `poll` that it
-- may be in returns, and the functors of that round are called, in order.
pub quit-Returned :
    {w v : World}
    → w.loop.quit ≡ true
    → Steps w v
    → (v.loop.quit ≡ true)
      × Steps v (loop_steps (steps_left v.loop.phase v.loop.pending_functors) v)
      × Returned
          (functors_left v.loop.phase v.loop.pending_functors)
          v
          (loop_steps (steps_left v.loop.phase v.loop.pending_functors) v)
quit-Returned {w} {v} set ss =
    let q = Steps-quit ss set in
    (
      q,
      loop_steps-Steps (steps_left v.loop.phase v.loop.pending_functors) v,
      returns v.loop.phase v refl q,
    )
