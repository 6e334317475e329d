-- ===== src/EventLoopThread/Tests.antt =====
-- A run of the handshake, and the theorem about it.
use mtnet.Prelude.{ℕ, ◌≡◌, refl, Option, none, some, true, false, ok, err, out_of_bounds}
use mtnet.EventLoopThread.{init, begin_start_loop, publish, finish, destroy}
use mtnet.EventLoopThread.Handshake.{
  World, returned, Steps, here, next, calls, publishes, returns, ends, start, returned-destroy,
  waiting,
}

-- The loop stands at 40, and the caller has it.
abbrev shared : World
shared = record {
  thread = record { loop = some 40; exiting = false; started = true; ended = false };
  caller = returned (some 40);
}

handshake : Steps 40 start shared
unfolding init begin_start_loop publish
handshake =
    next (next (next here (calls (record init { started = true }) refl refl)) (publishes refl refl))
      (returns refl refl)

returned-destroy_example :
    (◌≡◌ {A = Option ℕ} (some 40) (some 40))
    × (destroy shared.thread ≡ ok (record shared.thread { exiting = true }, 40))
returned-destroy_example = returned-destroy 40 (some 40) handshake refl

-- As in mtnet/mtnetTest/test2.cc, the loop is quit and its thread has ended before the destructor.
abbrev over : World
over = record shared { thread = record shared.thread { ended = true } }

over_run : Steps 40 start over
unfolding finish
over_run = next handshake (ends refl)

destroyed_too_late : destroy over.thread ≡ err out_of_bounds
unfolding destroy
destroyed_too_late = refl

-- The caller waits.
abbrev begun : World
begun = record {
  thread = record { loop = none; exiting = false; started = true; ended = false };
  caller = waiting;
}

begun_run : Steps 40 start begun
unfolding init begin_start_loop
begun_run = next here (calls (record init { started = true }) refl refl)
