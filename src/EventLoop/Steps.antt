-- ===== src/EventLoop/Steps.antt =====
-- All interleavings of a running loop with other threads.
use mtnet.Prelude.{ℕ, suc, ◌≡◌, ◌≢◌, List, [], ◌∷◌, ◌++◌}
use mtnet.EventLoop.Defs.{
  EventLoop, Phase, polling, handling, calling, handle_read, push_functor, wakeup_if_needed,
  queue_in_loop, set_quit, quit_loop, poll_returns, begin_pending, advance, end_pending,
}

-- The loop, how many other threads have pushed a functor or set `quit_` and not yet written to the
-- eventfd, and, for the statements, all functors in the order of their pushes, and those that have
-- been called, in the order of their calls.
pub record World : Type 0 where
  pub loop : EventLoop
  pub waking : ℕ
  pub pushed : List ℕ
  pub called : List ℕ

-- A loop before anything is pushed.
abbrev pub start : EventLoop → World
start s = record { loop = s; waking = 0; pushed = []; called = [] }

-- Whether the loop's thread may run a callback or a functor, which may use the loop.
pub data IsRunning : Phase → Type 0 where
  in_handler : IsRunning handling
  in_functor : (rest : List ℕ) → IsRunning (calling rest)

pub data Step (w : World) : World → Type 0 where
  -- Another thread, in `queueInLoop` and in `quit`, in two steps each. (The test of `quit` is the
  -- first half of the test of `queueInLoop`, which holds in another thread.)
  other_push :
      (cb : ℕ)
      → Step w (record w {
        loop = push_functor cb w.loop;
        waking = suc w.waking;
        pushed = w.pushed ++ cb ∷ [];
      })
  other_quit : Step w (record w { loop = set_quit w.loop; waking = suc w.waking })
  other_wake :
      (tid n : ℕ)
      → w.loop.thread_id ≢ tid
      → w.waking ≡ suc n
      → Step w (record w { loop = wakeup_if_needed tid w.loop; waking = n })
  -- The loop's own thread, from a callback or a functor.
  own_queue :
      (cb : ℕ)
      → IsRunning w.loop.phase
      → Step w (record w {
        loop = queue_in_loop w.loop.thread_id cb w.loop;
        pushed = w.pushed ++ cb ∷ [];
      })
  own_quit : IsRunning w.loop.phase → Step w (record w { loop = quit_loop w.loop.thread_id w.loop })
  -- The loop itself.
  wakes : w.loop.phase ≡ polling → Step w (record w { loop = poll_returns w.loop })
  reads : w.loop.phase ≡ handling → Step w (record w { loop = handle_read w.loop })
  swaps : w.loop.phase ≡ handling → Step w (record w { loop = begin_pending w.loop })
  calls :
      (cb : ℕ) (rest : List ℕ)
      → w.loop.phase ≡ calling (cb ∷ rest)
      → Step w (record w { loop = advance rest w.loop; called = w.called ++ cb ∷ [] })
  ends : w.loop.phase ≡ calling [] → Step w (record w { loop = end_pending w.loop })

pub data Steps (w : World) : World → Type 0 where
  here : Steps w w
  next : {u v : World} → Steps w u → Step u v → Steps w v
