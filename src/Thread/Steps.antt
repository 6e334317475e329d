-- ===== src/Thread/Steps.antt =====
-- All interleavings of the owner of a `Thread` with the thread that it starts.
use mtnet.Prelude.{ℕ, ◌≡◌, List, [], ◌++◌, Option, none, some, ok}
use mtnet.Thread.Defs.{
  Pthread, Thread, init, start, join_thread, destroy, CurrentThread, new_thread, enter, leave,
}

-- Where the new thread is: not created, before `runInhread`, in `func_()`, or at its end.
pub data Child : Type 0 where
  absent ready running ended : Child

-- The object, until it is destroyed, the new thread with what it has of its own, and the calls of the
-- pthread library so far.
pub record World : Type 0 where
  pub object : Option Thread
  pub child : Child
  pub own : CurrentThread
  pub calls : List Pthread

abbrev pub begin : List ℕ → World
begin name = record { object = some (init name); child = absent; own = new_thread; calls = [] }

-- `id` is what `gettid` returns in the new thread. `pthread_join` returns when that thread has ended.
-- A step of the owner needs the object, and the assertions of the operation to hold.
module _ (id : ℕ) (name : List ℕ) where
  pub data Step : World → World → Type 0 where
    starts :
        (t u : Thread) (handle : ℕ) (es : List Pthread) (w : World)
        → start (some handle) t ≡ ok (u, es)
        → Step
            (record w { object = some t })
            (record w { object = some u; child = ready; calls = w.calls ++ es })
    enters :
        (o : Option Thread) (w : World)
        → Step
            (record w { object = o; child = ready })
            (record w {
              object = (enter id name w.own o).1;
              child = running;
              own = (enter id name w.own o).0;
            })
    leaves :
        (w : World)
        → Step (record w { child = running }) (record w { child = ended; own = leave w.own })
    joins :
        (t u : Thread) (es : List Pthread) (w : World)
        → join_thread t ≡ ok (u, es)
        → Step
            (record w { object = some t; child = ended })
            (record w { object = some u; child = ended; calls = w.calls ++ es })
    destroys :
        (t : Thread) (w : World)
        → Step
            (record w { object = some t })
            (record w { object = none; calls = w.calls ++ destroy t })

  pub data Steps (w : World) : World → Type 0 where
    here : Steps w w
    next : {u v : World} → Steps w u → Step u v → Steps w v
