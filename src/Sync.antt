-- ===== src/Sync.antt =====
-- base/Mutex.h and base/Condition.h. What pthread does is a parameter: the states of one mutex
-- with one condition variable, the calls as relations of the state before to that after, and what
-- POSIX says of them. Each function of the two classes is one call.
pub mod Monitor
use mtnet.Prelude.{ℕ, ◌≡◌, ◌≢◌, Bool, true, false, Option, none, some}

-- A thread in `pthread_cond_wait` first gives the mutex up and sleeps, in one step (`CondWait`),
-- is woken by a signal or without one (`SpuriousWake`), and then locks the mutex again.
pub record Pthread : Type 1 where
  pub State : Type 0
  pub fresh : State
  pub owner : State → Option ℕ
  pub asleep : State → ℕ → Bool
  pub MutexLock : ℕ → State → State → Type 0
  pub MutexUnlock : ℕ → State → State → Type 0
  pub CondWait : ℕ → State → State → Type 0
  pub SpuriousWake : ℕ → State → State → Type 0
  pub CondSignal : State → State → Type 0
  pub CondBroadcast : State → State → Type 0

-- What POSIX says of a call that returns, and which calls can.
pub record IsPosix (p : Pthread) : Type 0 where
  pub fresh_owner : p.owner p.fresh ≡ none
  pub fresh_asleep : (u : ℕ) → p.asleep p.fresh u ≡ false
  -- Locking waits until the mutex is free.
  pub lock_free : (t : ℕ) (s r : p.State) → p.MutexLock t s r → p.owner s ≡ none
  pub lock_owner : (t : ℕ) (s r : p.State) → p.MutexLock t s r → p.owner r ≡ some t
  pub lock_asleep :
      (t : ℕ) (s r : p.State) → p.MutexLock t s r → (u : ℕ) → p.asleep r u ≡ p.asleep s u
  pub locks : (t : ℕ) (s : p.State) → p.owner s ≡ none → (r : p.State) × p.MutexLock t s r
  -- Only the owner may unlock.
  pub unlock_owner : (t : ℕ) (s r : p.State) → p.MutexUnlock t s r → p.owner r ≡ none
  pub unlock_asleep :
      (t : ℕ) (s r : p.State) → p.MutexUnlock t s r → (u : ℕ) → p.asleep r u ≡ p.asleep s u
  pub unlocks : (t : ℕ) (s : p.State) → p.owner s ≡ some t → (r : p.State) × p.MutexUnlock t s r
  -- A wait gives up the mutex and sleeps at once.
  pub wait_owner : (t : ℕ) (s r : p.State) → p.CondWait t s r → p.owner r ≡ none
  pub wait_asleep : (t : ℕ) (s r : p.State) → p.CondWait t s r → p.asleep r t ≡ true
  pub wait_others :
      (t : ℕ) (s r : p.State) → p.CondWait t s r → (u : ℕ) → u ≢ t → p.asleep r u ≡ p.asleep s u
  pub waits : (t : ℕ) (s : p.State) → p.owner s ≡ some t → (r : p.State) × p.CondWait t s r
  pub spurious_owner : (t : ℕ) (s r : p.State) → p.SpuriousWake t s r → p.owner r ≡ p.owner s
  pub spurious_only :
      (t : ℕ) (s r : p.State)
      → p.SpuriousWake t s r
      → (u : ℕ) → p.asleep r u ≡ true
      → p.asleep s u ≡ true
  -- A signal wakes at least one sleeping thread, if there is any, and puts none to sleep.
  pub signal_owner : (s r : p.State) → p.CondSignal s r → p.owner r ≡ p.owner s
  pub signal_wakes :
      (s r : p.State)
      → p.CondSignal s r
      → (t : ℕ) → p.asleep s t ≡ true
      → (u : ℕ) × (p.asleep s u ≡ true) × (p.asleep r u ≡ false)
  pub signal_only :
      (s r : p.State) → p.CondSignal s r → (u : ℕ) → p.asleep r u ≡ true → p.asleep s u ≡ true
  pub signals : (s : p.State) → (r : p.State) × p.CondSignal s r

module _ (p : Pthread) where
  -- `MutexLock`.
  abbrev pub Lock : ℕ → p.State → p.State → Type 0
  Lock = p.MutexLock

  abbrev pub Unlock : ℕ → p.State → p.State → Type 0
  Unlock = p.MutexUnlock

  -- `MutexLockGuard`: its constructor and its destructor.
  abbrev pub Enter : ℕ → p.State → p.State → Type 0
  Enter = Lock

  abbrev pub Leave : ℕ → p.State → p.State → Type 0
  Leave = Unlock

  -- `Condition`: the two halves of `wait`, `notify` and `notifyAll`.
  abbrev pub Wait : ℕ → p.State → p.State → Type 0
  Wait = p.CondWait

  pub data Rewait (t : ℕ) (s r : p.State) : Type 0 where
    woken : p.asleep s t ≡ false → Lock t s r → Rewait t s r

  abbrev pub Notify : p.State → p.State → Type 0
  Notify = p.CondSignal

  abbrev pub NotifyAll : p.State → p.State → Type 0
  NotifyAll = p.CondBroadcast
