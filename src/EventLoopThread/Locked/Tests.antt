-- ===== src/EventLoopThread/Locked/Tests.antt =====
-- `startLoop` waits, and is woken by the new thread.
use mtnet.Prelude.{◌+◌, ◌*◌, ◌≤◌, ◌≡◌, ◌⊎◌, ◌&&◌, refl, false, true, some}
use mtnet.EventLoopThread.{EventLoopThread, init, begin_start_loop, publish}
use mtnet.EventLoopThread.Handshake as Handshake
use mtnet.Sync.{woken}
use mtnet.Sync.Monitor as Monitor
use mtnet.Sync.Monitor.{Monitor, monitor, monitor-IsPosix}
use mtnet.EventLoopThread.Locked.Defs.{
  returned, looping, starts, locks, waits, wakes, finds, leaves, returns, builds, acquires, stores,
  notifies, releases, World, start, Step, caller_moves, worker_moves, Steps, here, next,
}
use mtnet.EventLoopThread.Locked.Invariant.{is_inside, is_inside_worker}
use mtnet.EventLoopThread.Locked.Progress.{start_loop-returned}
use mtnet.EventLoopThread.Locked.Refine.{coarse, Steps-coarse}

abbrev free : Monitor
free = monitor.fresh

abbrev slept : Monitor
slept = Monitor.waiting 0 (Monitor.locked 0 free)

abbrev called : Monitor
called = Monitor.signalled (Monitor.locked 1 slept)

abbrev started : EventLoopThread
started = record init { started = true }

abbrev done : World monitor 900
done = record {
  state = Monitor.unlocked (Monitor.locked 0 (Monitor.unlocked called));
  thread = record { loop = some 900; exiting = false; started = true; ended = false };
  caller = returned (some 900);
  worker = looping;
}

done_run : Steps monitor 900 (start monitor 900) 12 0 done
unfolding begin_start_loop publish init
done_run =
    next
      (next
        (next
          (next
            (next
              (next
                (next
                  (next
                    (next
                      (next
                        (next (next here (caller_moves (starts {u = started} refl)))
                          (caller_moves (locks {r = Monitor.locked 0 free} (refl, refl))))
                        (caller_moves (waits {r = slept} refl (refl, refl))))
                      (worker_moves (builds refl)))
                    (worker_moves (acquires {r = Monitor.locked 1 slept} (refl, refl))))
                  (worker_moves stores))
                (worker_moves (notifies {r = called} refl)))
              (worker_moves (releases {r = Monitor.unlocked called} (refl, refl))))
            (caller_moves
              (wakes {r = Monitor.locked 0 (Monitor.unlocked called)} (woken refl (refl, refl)))))
          (caller_moves (finds refl)))
        (caller_moves (leaves {r = done.state} (refl, refl))))
      (caller_moves returns)

start_loop-returned_example :
    ((is_inside done.caller && is_inside_worker done.worker) ≡ false)
    × (12 ≤ 13 + 2 * 0)
    × (((done.caller ≡ returned (some 900)) × (done.worker ≡ looping))
        ⊎ ((v : World monitor 900) × Step monitor 900 done v))
start_loop-returned_example = start_loop-returned monitor-IsPosix 900 done_run

Steps-coarse_example : Handshake.Steps 900 Handshake.start (coarse done)
Steps-coarse_example = Steps-coarse monitor-IsPosix 900 done_run
