-- ===== src/EventLoop/Defs.antt =====
-- The operations of mtnet/EventLoop.cc.
use mtnet.Prelude.{
  ℕ, ◌+◌, ◌-◌, ◌^◌, List, [], ◌∷◌, ◌++◌, Bool, true, false, not, ◌||◌, ltb, ◌==◌, if◌then◌else◌,
  Result, ok, guard, ◌>>◌, assertion,
}

-- Where the loop's thread is: outside `loop()`, in `poll`, in the handlers of the active channels,
-- or in `doPendingFunctors`, with the functors of `functions` that are left.
pub data Phase : Type 0 where
  stopped polling handling : Phase
  calling : List ℕ → Phase

-- `wakeup_count` is the counter of the eventfd behind `wakeupFd_`.
pub record EventLoop : Type 0 where
  pub looping : Bool
  pub quit : Bool
  pub calling_pending_functors : Bool
  pub thread_id : ℕ
  pub pending_functors : List ℕ
  pub wakeup_count : ℕ
  pub phase : Phase

-- `EventLoop()`, in the thread `tid`.
unfoldable pub init : ℕ → EventLoop
init tid = record {
  looping = false;
  quit = false;
  calling_pending_functors = false;
  thread_id = tid;
  pending_functors = [];
  wakeup_count = 0;
  phase = stopped;
}

abbrev pub is_in_loop_thread : ℕ → EventLoop → Bool
is_in_loop_thread tid s = s.thread_id == tid

-- The largest value of an eventfd; a non-blocking write that would pass it fails, and is logged.
abbrev pub max_count : ℕ
max_count = 2 ^ 64 - 2

unfoldable pub wakeup : EventLoop → EventLoop
wakeup s = record s {
  wakeup_count = if ltb s.wakeup_count max_count then s.wakeup_count + 1 else s.wakeup_count;
}

-- `handleRead`: the read resets the counter.
unfoldable pub handle_read : EventLoop → EventLoop
handle_read s = record s { wakeup_count = 0 }

-- The two halves of `queueInLoop`: the push under the mutex, and the test that follows.
unfoldable pub push_functor : ℕ → EventLoop → EventLoop
push_functor cb s = record s { pending_functors = s.pending_functors ++ cb ∷ [] }

unfoldable pub wakeup_if_needed : ℕ → EventLoop → EventLoop
unfolding wakeup
wakeup_if_needed tid s =
    if not (is_in_loop_thread tid s) || s.calling_pending_functors then wakeup s else s

unfoldable pub queue_in_loop : ℕ → ℕ → EventLoop → EventLoop
unfolding push_functor wakeup_if_needed
queue_in_loop tid cb s = wakeup_if_needed tid (push_functor cb s)

-- `runInLoop`; `call` is what a functor does to the loop.
unfoldable pub run_in_loop : (ℕ → EventLoop → EventLoop) → ℕ → ℕ → EventLoop → EventLoop
unfolding queue_in_loop
run_in_loop call tid cb s = if is_in_loop_thread tid s then call cb s else queue_in_loop tid cb s

-- The two halves of `quit`.
unfoldable pub set_quit : EventLoop → EventLoop
set_quit s = record s { quit = true }

unfoldable pub quit_loop : ℕ → EventLoop → EventLoop
unfolding set_quit wakeup
quit_loop tid s = let t = set_quit s in if not (is_in_loop_thread tid s) then wakeup t else t

-- `loop()` up to the first `poll`.
unfoldable pub begin_loop : EventLoop → Result EventLoop
begin_loop s = do
  guard (not s.looping) assertion
  ok (record s { looping = true; quit = false; phase = polling })

-- `poll` returns.
unfoldable pub poll_returns : EventLoop → EventLoop
poll_returns s = record s { phase = handling }

-- `doPendingFunctors` up to its loop: the queue is swapped with the empty `functions`.
unfoldable pub begin_pending : EventLoop → EventLoop
begin_pending s = record s {
  calling_pending_functors = true;
  pending_functors = [];
  phase = calling s.pending_functors;
}

-- One more functor of `functions` has been called.
unfoldable pub advance : List ℕ → EventLoop → EventLoop
advance rest s = record s { phase = calling rest }

-- The end of `doPendingFunctors`, and the test of `while (!quit_)`.
unfoldable pub end_pending : EventLoop → EventLoop
end_pending s =
    if s.quit
    then record s { calling_pending_functors = false; looping = false; phase = stopped }
    else record s { calling_pending_functors = false; phase = polling }
