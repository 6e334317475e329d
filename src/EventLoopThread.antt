-- ===== src/EventLoopThread.antt =====
-- mtnet/EventLoopThread.h and mtnet/EventLoopThread.cc: a thread that runs a loop, and the handshake by
-- which `startLoop` learns the loop's address.
pub mod Handshake
pub mod Locked
mod Tests
use mtnet.Prelude.{
  ℕ, Bool, true, false, not, Option, none, some, Result, ok, err, guard, ◌>>=◌, ◌>>◌, assertion,
  out_of_bounds,
}

-- `loop_`, `exiting_`, and whether `thread_` has been started and whether its function has ended, with
-- which its `loop` is gone.
pub record EventLoopThread : Type 0 where
  pub loop : Option ℕ
  pub exiting : Bool
  pub started : Bool
  pub ended : Bool

-- `EventLoopThread()`.
unfoldable pub init : EventLoopThread
init = record { loop = none; exiting = false; started = false; ended = false }

-- `startLoop` up to its loop.
unfoldable pub begin_start_loop : EventLoopThread → Result EventLoopThread
begin_start_loop t = do guard (not t.started) assertion; ok (record t { started = true })

abbrev pub is_null : Option ℕ → Bool
is_null none = true
is_null (some l) = false

-- The condition of the loop in `startLoop`, under the mutex.
abbrev pub is_waiting : EventLoopThread → Bool
is_waiting t = is_null t.loop

-- `threadFunc` under the mutex, with the address of its `loop`.
unfoldable pub publish : ℕ → EventLoopThread → EventLoopThread
publish address t = record t { loop = some address }

-- The end of `threadFunc`: its local `loop` is destroyed, and `loop_` still points to where it was.
unfoldable pub finish : EventLoopThread → EventLoopThread
finish t = record t { ended = true }

-- A call through a pointer that may be null.
abbrev pub deref : Option ℕ → Result ℕ
deref none = err out_of_bounds
deref (some l) = ok l

-- The destructor, up to the `join`: the thread, and the loop whose `quit` it calls. A call on a loop
-- that is gone is an access that C++ leaves undefined.
unfoldable pub destroy : EventLoopThread → Result (EventLoopThread × ℕ)
destroy t = do
  loop ← deref t.loop
  guard (not t.ended) out_of_bounds
  ok (record t { exiting = true }, loop)
