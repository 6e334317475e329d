-- ===== src/EventLoopThread/Locked/Defs.antt =====
-- `startLoop` and `threadFunc` of mtnet/EventLoopThread.cc at each lock, test, wait, store and notify.
-- The caller of `startLoop` is the thread 0, the new thread is 1; `address` is that of its loop. The new
-- thread is followed to its call of `loop()`; what comes after is in `Handshake`.
use mtnet.Prelude.{ℕ, suc, ◌≡◌, true, false, Option, ok}
use mtnet.EventLoopThread.{EventLoopThread, init, begin_start_loop, is_waiting, publish}
use mtnet.Sync.{Pthread, Enter, Leave, Wait, Rewait, Notify}

-- `testing` and `leaving` are under the mutex; `waiting` is in `cond_.wait()`; `left` is before the
-- `return`.
pub data Caller : Type 0 where
  before locking testing waiting leaving left : Caller
  returned : Option ℕ → Caller

-- `building` constructs the loop; `storing`, `notifying` and `releasing` are under the mutex.
pub data Worker : Type 0 where
  building acquiring storing notifying releasing looping : Worker

module _ (p : Pthread) (address : ℕ) where
  pub data CallerMove
      : p.State → EventLoopThread → Caller → p.State → EventLoopThread → Caller → Type 0 where
    starts :
        {s : p.State} {t u : EventLoopThread}
        → begin_start_loop t ≡ ok u
        → CallerMove s t before s u locking
    locks :
        {s r : p.State} {t : EventLoopThread} → Enter p 0 s r → CallerMove s t locking r t testing
    waits :
        {s r : p.State} {t : EventLoopThread}
        → is_waiting t ≡ true
        → Wait p 0 s r
        → CallerMove s t testing r t waiting
    wakes :
        {s r : p.State} {t : EventLoopThread} → Rewait p 0 s r → CallerMove s t waiting r t testing
    finds :
        {s : p.State} {t : EventLoopThread}
        → is_waiting t ≡ false
        → CallerMove s t testing s t leaving
    leaves : {s r : p.State} {t : EventLoopThread} → Leave p 0 s r → CallerMove s t leaving r t left
    returns : {s : p.State} {t : EventLoopThread} → CallerMove s t left s t (returned t.loop)

  pub data WorkerMove
      : p.State → EventLoopThread → Worker → p.State → EventLoopThread → Worker → Type 0 where
    builds :
        {s : p.State} {t : EventLoopThread}
        → t.started ≡ true
        → WorkerMove s t building s t acquiring
    acquires :
        {s r : p.State} {t : EventLoopThread} → Enter p 1 s r → WorkerMove s t acquiring r t storing
    stores :
        {s : p.State} {t : EventLoopThread} → WorkerMove s t storing s (publish address t) notifying
    notifies :
        {s r : p.State} {t : EventLoopThread}
        → Notify p s r
        → WorkerMove s t notifying r t releasing
    releases :
        {s r : p.State} {t : EventLoopThread} → Leave p 1 s r → WorkerMove s t releasing r t looping

  pub record World : Type 0 where
    pub state : p.State
    pub thread : EventLoopThread
    pub caller : Caller
    pub worker : Worker

  abbrev pub start : World
  start = record { state = p.fresh; thread = init; caller = before; worker = building }

  pub data Step (w : World) : World → Type 0 where
    caller_moves :
        {s : p.State} {t : EventLoopThread} {c : Caller}
        → CallerMove w.state w.thread w.caller s t c
        → Step w (record w { state = s; thread = t; caller = c })
    worker_moves :
        {s : p.State} {t : EventLoopThread} {k : Worker}
        → WorkerMove w.state w.thread w.worker s t k
        → Step w (record w { state = s; thread = t; worker = k })

  -- `n` steps, and `m` times the caller is woken without a signal.
  pub data Steps (w : World) : ℕ → ℕ → World → Type 0 where
    here : Steps w 0 0 w
    next : {n m : ℕ} {u v : World} → Steps w n m u → Step u v → Steps w (suc n) m v
    spurious :
        {n m : ℕ} {u : World} {s : p.State}
        → Steps w n m u
        → u.caller ≡ waiting
        → p.SpuriousWake 0 u.state s
        → Steps w n (suc m) (record u { state = s })
