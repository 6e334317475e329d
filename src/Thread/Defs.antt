-- ===== src/Thread/Defs.antt =====
-- The operations of base/Thread.cc. `pthread_create` is an argument of `start`, which it gives the new
-- thread's handle or an error. `func_` is what happens between `enter` and `leave`.
use mtnet.Atomic.{increment}
use mtnet.Prelude.{
  ℕ, List, [], ◌∷◌, Bool, true, false, not, ◌&&◌, ◌==◌, if◌then◌else◌, Option, none, some, Result,
  ok, err, guard, ◌>>◌, assertion, aborted,
}

-- The calls of the pthread library, with the handle of the thread.
pub data Pthread : Type 0 where
  create join detach : ℕ → Pthread

-- `*tid_` is a field, and the owner of `tid_` is the object alone: the new thread has a weak pointer.
pub record Thread : Type 0 where
  pub started : Bool
  pub joined : Bool
  pub pthread_id : ℕ
  pub tid : ℕ
  pub name : List ℕ

unfoldable pub init : List ℕ → Thread
init name = record { started = false; joined = false; pthread_id = 0; tid = 0; name = name }

-- `Thread(func, name)`, which counts the objects in `numCreated_`.
unfoldable pub construct : List ℕ → (num_created : ℕ) → Thread × ℕ
unfolding init increment
construct name num_created = (init name, increment num_created)

-- `start`; a thread that cannot be created stops the program.
unfoldable pub start : Option ℕ → Thread → Result (Thread × List Pthread)
start none t = guard (not t.started) assertion >> err aborted
start (some id) t =
    guard (not t.started) assertion
    >> ok (record t { started = true; pthread_id = id }, create id ∷ [])

-- `Thread::join`, up to the return of `pthread_join`.
unfoldable pub join_thread : Thread → Result (Thread × List Pthread)
join_thread t = do
  guard t.started assertion
  guard (not t.joined) assertion
  ok (record t { joined = true }, join t.pthread_id ∷ [])

-- `~Thread()`.
unfoldable pub destroy : Thread → List Pthread
destroy t = if t.started && not t.joined then detach t.pthread_id ∷ [] else []

-- The values of `t_threadName`: a string of the code, or the name of a `Thread`.
pub data ThreadName : Type 0 where
  undefine mtnet_thread finished : ThreadName
  named : List ℕ → ThreadName

-- What a thread has of its own: `t_cachedTid` and `t_threadName`.
pub record CurrentThread : Type 0 where
  pub cached_tid : ℕ
  pub thread_name : ThreadName

abbrev pub new_thread : CurrentThread
new_thread = record { cached_tid = 0; thread_name = undefine }

-- `CurrentThread::tid`; `id` is what `gettid` returns in this thread.
unfoldable pub current_tid : ℕ → CurrentThread → ℕ × CurrentThread
current_tid id c =
    let d = if c.cached_tid == 0 then record c { cached_tid = id } else c in (d.cached_tid, d)

-- `CurrentThread::isMainThread`; `pid` is what `getpid` returns.
unfoldable pub is_main_thread : ℕ → ℕ → CurrentThread → Bool
unfolding current_tid
is_main_thread pid id c = (current_tid id c).0 == pid

abbrev pub name_or_default : List ℕ → ThreadName
name_or_default [] = mtnet_thread
name_or_default (a ∷ name) = named (a ∷ name)

-- `wkTid_.lock()` and the assignment: the object may be gone.
abbrev pub store_tid : ℕ → Option Thread → Option Thread
store_tid tid none = none
store_tid tid (some t) = some (record t { tid = tid })

-- `runInhread` up to `func_()`.
unfoldable pub enter : ℕ → List ℕ → CurrentThread → Option Thread → CurrentThread × Option Thread
unfolding current_tid
enter id name c object =
    let r = current_tid id c in
    (record (r.1) { thread_name = name_or_default name }, store_tid (r.0) object)

-- The end of `runInhread`.
unfoldable pub leave : CurrentThread → CurrentThread
leave c = record c { thread_name = finished }
