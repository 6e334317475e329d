-- ===== src/Thread/Tests.antt =====
-- A thread's life at concrete values.
use mtnet.Prelude.{◌≡◌, refl, [], ◌∷◌, true, false, some, none, err, aborted, assertion}
use mtnet.Thread.Defs.{
  construct, create, detach, Thread, init, start, join_thread, destroy, named, enter,
}
use mtnet.Thread.Steps.{running, World, begin, starts, enters, destroys, Steps, here, next}
use mtnet.Thread.Reaped.{Reaped, destroyed-Reaped}

second_object : (construct [] 1).1 ≡ 2
unfolding construct mtnet.Atomic.increment
second_object = refl

start_fails : start none (init []) ≡ err aborted
unfolding start init
start_fails = refl

join_first : join_thread (init []) ≡ err assertion
unfolding join_thread init
join_first = refl

-- The thread that `start` of the `Thread` "A" made has the handle 5 and the id 77, and is in its function.
abbrev started_thread : Thread
started_thread = record { started = true; joined = false; pthread_id = 5; tid = 77; name = 65 ∷ [] }

abbrev in_function : World
in_function = record {
  object = some started_thread;
  child = running;
  own = record { cached_tid = 77; thread_name = named (65 ∷ []) };
  calls = create 5 ∷ [];
}

runs : Steps 77 (65 ∷ []) (begin (65 ∷ [])) in_function
unfolding init start enter
runs =
    next
      (next here (
        starts (init (65 ∷ [])) (record started_thread { tid = 0 }) 5 (create 5 ∷ [])
          (begin (65 ∷ [])) refl))
      (enters (some (record started_thread { tid = 0 }))
        (record (begin (65 ∷ [])) { calls = create 5 ∷ [] }))

-- The object is destroyed while the thread runs.
abbrev abandoned : World
abandoned = record in_function { object = none; calls = create 5 ∷ detach 5 ∷ [] }

abandons : Steps 77 (65 ∷ []) (begin (65 ∷ [])) abandoned
unfolding destroy
abandons = next runs (destroys started_thread in_function)

destroyed-Reaped_example : Reaped 77 (65 ∷ []) running (create 5 ∷ detach 5 ∷ [])
destroyed-Reaped_example = destroyed-Reaped 77 (65 ∷ []) abandons refl
