-- ===== src/EventLoop/Tests.antt =====
-- A run of the loop, and the theorems about it.
use mtnet.Prelude.{
  List, arith, ◌≡◌, ◌<◌, ◌⊎◌, refl, true, false, [], ◌∷◌, ◌++◌, ok, err, aborted, some, none,
}
use mtnet.EventLoop.Defs.{EventLoop, stopped, polling, calling, init, begin_loop, push_functor}
use mtnet.EventLoop.Steps.{World, start, Steps, here, next, other_push}
use mtnet.EventLoop.Wakeup.{no_lost_wakeup, due_wakeups}
use mtnet.EventLoop.Quit.{loop_steps, Returned, quit-Returned}
use mtnet.Prelude.Int.{pos}
use mtnet.Poller.Invariant.{IsConsistent}
use mtnet.Sockets.Defs.{returned, failed}
use mtnet.EventLoop.Construct.{Addresses, Constructed, construct, new_channel}
use mtnet.EventLoop.Constructed.{reading, construct_lem}
use mtnet.EventLoop.BeforeLoop.{Call, queues, quits, make_all, quit_before_loop}
use mtnet.EventLoop.Order.{functors_in_order, left}

-- The loop of thread 1, in its first `poll`.
abbrev running : EventLoop
running = record {
  looping = true;
  quit = false;
  calling_pending_functors = false;
  thread_id = 1;
  pending_functors = [];
  wakeup_count = 0;
  phase = polling;
}

abbrev idle : EventLoop
idle = record running { looping = false; phase = stopped }

-- Another thread has pushed functor 7, and has not yet written to the eventfd.
abbrev pushing : World
unfolding push_functor
pushing = record { loop = push_functor 7 running; waking = 1; pushed = 7 ∷ []; called = [] }

push_step : Steps (start running) pushing
unfolding push_functor
push_step = next here (other_push 7)

no_lost_wakeup_example :
    ((pushing.loop.pending_functors ≡ []) × (pushing.loop.quit ≡ false)) ⊎ (0 < due_wakeups pushing)
unfolding push_functor begin_loop
no_lost_wakeup_example = no_lost_wakeup idle running refl refl push_step refl

functors_in_order_example :
    pushing.called ++ (left pushing.loop.phase ++ pushing.loop.pending_functors) ≡ pushing.pushed
unfolding push_functor begin_loop
functors_in_order_example = functors_in_order idle running refl refl push_step

-- Thread 2 quits the loop of thread 1 after that has queued the functor 7.
abbrev early : List Call
early = queues 1 7 ∷ quits 2 ∷ []

quit_before_loop_example :
    (t : EventLoop) × (begin_loop (make_all early (init 1)) ≡ ok t)
    × (t.phase ≡ polling)
    × (t.quit ≡ false)
    × (t.pending_functors ≡ 7 ∷ [])
    × (t.wakeup_count ≡ 1)
unfolding init
quit_before_loop_example = quit_before_loop early (init 1) refl refl (omega arith)

-- A functor quits the loop while another functor waits.
abbrev quitting : World
quitting = record {
  loop = record running {
    quit = true;
    calling_pending_functors = true;
    pending_functors = 9 ∷ [];
    phase = calling (7 ∷ 8 ∷ []);
  };
  waking = 0;
  pushed = 6 ∷ 7 ∷ 8 ∷ 9 ∷ [];
  called = 6 ∷ [];
}

-- Another thread pushes a functor in between.
abbrev quitting_still : World
quitting_still = record quitting {
  loop = record quitting.loop { pending_functors = 9 ∷ 10 ∷ [] };
  waking = 1;
  pushed = 6 ∷ 7 ∷ 8 ∷ 9 ∷ 10 ∷ [];
}

quitting_step : Steps quitting quitting_still
unfolding push_functor
quitting_step = next here (other_push 10)

quit-Returned_example :
    (quitting_still.loop.quit ≡ true)
    × Steps quitting_still (loop_steps 3 quitting_still)
    × Returned (7 ∷ 8 ∷ []) quitting_still (loop_steps 3 quitting_still)
quit-Returned_example = quit-Returned refl quitting_step

-- The loop 1 with its channels at 2 and 3, on the descriptors 4 and 5.
abbrev addresses : Addresses
addresses = record {
  self = 1;
  timerfd_channel = 2;
  wakeup_channel = 3;
  timer_callback = 20;
  wakeup_callback = 30;
}

construct_lem_example :
    (r : Constructed) × (construct addresses 7
        (returned 4)
        (returned 5)
        (λ c. new_channel 0 (pos 0) 0)
        none
      ≡ ok r)
    × (construct addresses 7 (returned 4) (failed 24) (λ c. new_channel 0 (pos 0) 0) none
        ≡ err aborted)
    × IsConsistent r.poller
    × (r.poller.pollfds ≡ reading (pos 4) ∷ reading (pos 5) ∷ [])
    × (r.poller.channels (pos 4) ≡ some 2)
    × (r.poller.channels (pos 5) ≡ some 3)
    × (r.loop ≡ init 7)
construct_lem_example =
    construct_lem addresses 7 4 5 24 (λ c. new_channel 0 (pos 0) 0) none
      (λ e. absurd (omega (arith, e))) (λ e. absurd (omega (arith, e)))
