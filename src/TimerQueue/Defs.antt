-- ===== src/TimerQueue/Defs.antt =====
-- The operations of mtnet/TimerQueue.cc and mtnet/Timer.h. `D` is the type `double`: `positive x` is
-- `x > 0.0`, and `micros x` the number of microseconds that `addTime` adds for it. A timer is known
-- by its address; what its callback does to the queue is an argument.
use mtnet.Prelude.{
  ℕ, ◌-◌, ◌*◌, ◌/◌, ◌%◌, ◌^◌, List, [], ◌∷◌, Bool, true, false, not, ◌&&◌, ◌||◌, ltb, if◌then◌else◌,
  Option, none, some, Result, ok, err, guard, ◌>>=◌, ◌>>◌, assertion, out_of_bounds,
}
use mtnet.Prelude.Int.{ℤ, pos, pos_part, ltb_ℤ, ◌-ℤ◌}
use mtnet.Prelude.Maps.{update}
use mtnet.Timestamp.{Timestamp, lt, vaild, invalid, add_time, micro_second_per_second}

pub record Timer (D : Type 0) : Type 0 where
  pub callback : ℕ
  pub expiration : Timestamp
  pub interval : D
  pub repeat : Bool

-- `std::pair<Timestamp, Timer*>`, and its `<`.
pub record Entry : Type 0 where
  pub time : Timestamp
  pub timer : ℕ

abbrev pub entry_lt : Entry → Entry → Bool
entry_lt a b = lt a.time b.time || (not (lt b.time a.time) && ltb a.timer b.timer)

-- `struct timespec`.
pub record Timespec : Type 0 where
  pub tv_sec : ℕ
  pub tv_nsec : ℕ

-- `timers_`, in the order of the set; the memory that holds the timers (none where one was
-- deleted); and what the timerfd was last armed with.
pub record TimerQueue (D : Type 0) : Type 0 where
  pub timers : List Entry
  pub timer_at : ℕ → Option (Timer D)
  pub timerfd : Option Timespec

abbrev pub uintptr_max : ℕ
uintptr_max = 2 ^ 64 - 1

-- `std::set::insert`: the set, and whether the entry was new.
unfoldable pub set_insert : Entry → List Entry → List Entry × Bool
set_insert e [] = (e ∷ [], true)
set_insert e (x ∷ xs) =
    let rest = set_insert e xs in
    if entry_lt e x
    then (e ∷ x ∷ xs, true)
    else if entry_lt x e
    then (x ∷ rest.0, rest.1)
    else (x ∷ xs, false)

-- The entries before `lower_bound(sentry)`, and those from there on.
unfoldable pub split_lower_bound : Entry → List Entry → List Entry × List Entry
split_lower_bound sentry [] = ([], [])
split_lower_bound sentry (x ∷ xs) =
    let rest = split_lower_bound sentry xs in
    if entry_lt x sentry then (x ∷ rest.0, rest.1) else ([], x ∷ xs)

-- `microseconds` in `howMuchTimeFromNow(when)`, called at `now`.
unfoldable pub micro_seconds : Timestamp → Timestamp → ℕ
micro_seconds now when = if ltb_ℤ (when -ℤ now) (pos 100) then 100 else pos_part (when -ℤ now)

unfoldable pub how_much_time_from_now : Timestamp → Timestamp → Timespec
how_much_time_from_now now when = record {
  tv_sec = micro_seconds now when / micro_second_per_second;
  tv_nsec = micro_seconds now when % micro_second_per_second * 1000;
}

-- An access through a pointer to a timer.
abbrev pub deref {ℓ} : {A : Type ℓ} → Option A → Result A
deref none = err out_of_bounds
deref (some a) = ok a

-- Whether an iterator of the set is at its end, or at an entry later than `t`.
abbrev pub later_or_end : Timestamp → List Entry → Bool
later_or_end t [] = true
later_or_end t (x ∷ xs) = lt t x.time

module _ {D : Type 0} where
  -- `TimerQueue(loop)`.
  unfoldable pub init : TimerQueue D
  init = record { timers = []; timer_at = λ p. none; timerfd = none }

  unfoldable pub reset_timerfd : Timestamp → Timestamp → TimerQueue D → TimerQueue D
  reset_timerfd now expiration q = record q {
    timerfd = some (how_much_time_from_now now expiration);
  }

  -- `insert`: the queue, and `earliestChanged`.
  unfoldable pub insert : ℕ → TimerQueue D → Result (TimerQueue D × Bool)
  insert p q = do
    timer ← deref (q.timer_at p)
    let when = timer.expiration
    let earliest_changed = later_or_end when q.timers
    let result = set_insert (record { time = when; timer = p }) q.timers
    guard result.1 assertion
    ok (record q { timers = result.0 }, earliest_changed)

  unfoldable pub add_timer_in_loop : Timestamp → ℕ → TimerQueue D → Result (TimerQueue D)
  add_timer_in_loop now p q = do
    result ← insert p q
    timer ← deref (result.0.timer_at p)
    ok (if result.1 then reset_timerfd now timer.expiration result.0 else result.0)

  unfoldable pub get_expired : Timestamp → TimerQueue D → Result (List Entry × TimerQueue D)
  get_expired now q = do
    let split = split_lower_bound (record { time = now; timer = uintptr_max }) q.timers
    guard (later_or_end now split.1) assertion
    ok (split.0, record q { timers = split.1 })

  -- The end of `reset`: `nextExpire` stays invalid if there is no timer.
  unfoldable pub next_expire : List Entry → TimerQueue D → Result Timestamp
  next_expire [] q = ok invalid
  next_expire (e ∷ es) q = deref (q.timer_at e.timer) >>= λ timer. ok timer.expiration

  -- The callbacks of the expired timers, in order; `call` is what each does to the queue.
  unfoldable pub run_all :
      (ℕ → TimerQueue D → Result (TimerQueue D)) → List Entry → TimerQueue D → Result (TimerQueue D)
  run_all call [] q = ok q
  run_all call (e ∷ es) q = do
    timer ← deref (q.timer_at e.timer)
    r ← call timer.callback q
    run_all call es r

  -- The loop of `~TimerQueue()`: a second `delete` of a timer is an error. What is left in memory.
  unfoldable pub delete_all : List Entry → (ℕ → Option (Timer D)) → Result (ℕ → Option (Timer D))
  delete_all [] timer_at = ok timer_at
  delete_all (e ∷ es) timer_at = do
    timer ← deref (timer_at e.timer)
    delete_all es (update timer_at e.timer none)

  unfoldable pub destroy : TimerQueue D → Result (ℕ → Option (Timer D))
  unfolding delete_all
  destroy q = delete_all q.timers q.timer_at

module _ {D : Type 0} (positive : D → Bool) (micros : D → ℤ) where
  -- `Timer(cb, when, interval)`.
  unfoldable pub new_timer : ℕ → Timestamp → D → Timer D
  new_timer cb when interval = record {
    callback = cb;
    expiration = when;
    interval = interval;
    repeat = positive interval;
  }

  unfoldable pub restart : Timer D → Timestamp → Timer D
  restart t now = record t {
    expiration = if t.repeat then add_time now (micros t.interval) else invalid;
  }

  -- `addTimer`, called in the loop's thread, where `runInLoop` runs `addTimerInloop` at once; `p` is
  -- the address that `new` returned. (From another thread the same call is queued.)
  unfoldable pub add_timer :
      Timestamp → ℕ → ℕ → Timestamp → D → TimerQueue D → Result (TimerQueue D)
  add_timer now p cb when interval q =
      add_timer_in_loop now p
        (record q { timer_at = update q.timer_at p (some (new_timer cb when interval)) })

  -- One round of the loop in `reset`.
  unfoldable pub reset_one : Timestamp → Entry → TimerQueue D → Result (TimerQueue D)
  reset_one now e q = deref (q.timer_at e.timer) >>= λ timer.
      if timer.repeat
      then insert e.timer
          (record q { timer_at = update q.timer_at e.timer (some (restart timer now)) })
        >>= (λ r. ok r.0)
      else ok (record q { timer_at = update q.timer_at e.timer none })

  unfoldable pub reset_all : Timestamp → List Entry → TimerQueue D → Result (TimerQueue D)
  reset_all now [] q = ok q
  reset_all now (e ∷ es) q = reset_one now e q >>= λ r. reset_all now es r

  -- `reset(expired, now)`; `later` is the time when it arms the timerfd.
  unfoldable pub reset : Timestamp → List Entry → Timestamp → TimerQueue D → Result (TimerQueue D)
  reset later expired now q = do
    r ← reset_all now expired q
    next ← next_expire r.timers r
    ok (if vaild next then reset_timerfd later next r else r)

  -- `handleRead`, but for the read of the timerfd, which only logs.
  unfoldable pub handle_read :
      (ℕ → TimerQueue D → Result (TimerQueue D))
      → Timestamp
      → Timestamp
      → TimerQueue D
      → Result (TimerQueue D)
  handle_read call now later q = do
    r ← get_expired now q
    s ← run_all call r.0 r.1
    reset later r.0 now s
