-- ===== src/TimerQueue/Tests.antt =====
-- A run of the timer queue, and the theorems about it at concrete queues. The intervals are whole
-- microseconds here.
use mathlib.Core.List.{Perm}
use mtnet.Prelude.{
  ℕ, ◌≡◌, ◌≤◌, ◌<◌, ◌==◌, if◌then◌else◌, refl, Bool, ltb, List, [], ◌∷◌, ◌++◌, Option, none, some,
  Result, ok, err, arith,
}
use mtnet.Prelude.Int.{pos, max_ℤ, ◌+ℤ◌, ◌-ℤ◌}
use mtnet.TimerQueue.Defs.{
  destroy, Timer, Entry, TimerQueue, Timespec, run_all, get_expired, reset_all, handle_read,
  add_timer_in_loop, how_much_time_from_now, split_lower_bound, reset, reset_one, insert,
  set_insert, restart, next_expire, reset_timerfd, micro_seconds,
}
use mtnet.TimerQueue.Destroy.{destroy_lem}
use mtnet.TimerQueue.Order.{All, Apart}
use mtnet.TimerQueue.Queue.{IsValid, Added, first_time, add_timer_in_loop_lem}
use mtnet.TimerQueue.Expired.{Due, Later}
use mtnet.TimerQueue.Timespec.{in_micros, how_much_time_from_now_lem}
use mtnet.TimerQueue.Reset.{Reset}
use mtnet.TimerQueue.Handle.{IsTame, armed_for, handle_read_lem}

abbrev positive : ℕ → Bool
positive x = ltb 0 x

abbrev timer : ℕ → ℕ → ℕ → Timer ℕ
timer cb when interval = record {
  callback = cb;
  expiration = pos when;
  interval = interval;
  repeat = positive interval;
}

-- The timers at the addresses 100 (repeating), 200 and 300.
abbrev memory : ℕ → Option (Timer ℕ)
memory p =
    if p == 100
    then some (timer 1 50 10)
    else if p == 200
    then some (timer 2 60 0)
    else if p == 300
    then some (timer 3 500 0)
    else none

abbrev entry : ℕ → ℕ → Entry
entry when p = record { time = pos when; timer = p }

abbrev three : TimerQueue ℕ
three = record {
  timers = entry 50 100 ∷ entry 60 200 ∷ entry 500 300 ∷ [];
  timer_at = memory;
  timerfd = none;
}

three-IsValid : IsValid three
three-IsValid = record {
  sorted = ((refl, (refl, tt)), ((refl, tt), (tt, tt)));
  live = (
    (omega arith, (timer 1 50 10, refl, refl)),
    ((omega arith, (timer 2 60 0, refl, refl)), ((omega arith, (timer 3 500 0, refl, refl)), tt)),
  );
}

-- The timer at 100 is not in the set yet.
abbrev two : TimerQueue ℕ
two = record three { timers = entry 60 200 ∷ entry 500 300 ∷ [] }

two-IsValid : IsValid two
two-IsValid = record { sorted = three-IsValid.sorted.1; live = three-IsValid.live.1 }

abbrev idle : ℕ → TimerQueue ℕ → Result (TimerQueue ℕ)
idle f q = ok q

idle-IsTame : IsTame idle
idle-IsTame es f q p = (q, refl, p)

-- What can be seen of a queue.
abbrev observed : Result (TimerQueue ℕ) → Option (List Entry × Option Timespec)
observed (ok q) = some (q.timers, q.timerfd)
observed (err e) = none

handle_read_timers :
    observed (handle_read positive pos idle (pos 70) (pos 71) three)
    ≡ some (entry 80 100 ∷ entry 500 300 ∷ [], some (record { tv_sec = 0; tv_nsec = 100000 }))
unfolding handle_read get_expired split_lower_bound run_all reset reset_all reset_one insert
    set_insert restart ◌+ℤ◌ next_expire reset_timerfd how_much_time_from_now micro_seconds ◌-ℤ◌
handle_read_timers = refl

apart : All (Apart 100) two.timers
apart = ((λ h. absurd (omega (arith, h))), ((λ h. absurd (omega (arith, h))), tt))

add_timer_in_loop_lem_example :
    (r : TimerQueue ℕ) × (add_timer_in_loop (pos 1) 100 two ≡ ok r)
    × Added (pos 1) (timer 1 50 10) two r
    × Perm r.timers (entry 50 100 ∷ two.timers)
add_timer_in_loop_lem_example =
    add_timer_in_loop_lem (pos 1) 100 two (timer 1 50 10) two-IsValid refl (omega arith) apart

handle_read_lem_example :
    (due rest : List Entry) × (u s r : TimerQueue ℕ) × (due ++ rest ≡ three.timers)
    × All (Due (pos 70)) due
    × All (Later (pos 70)) rest
    × (run_all idle due (record three { timers = rest }) ≡ ok u)
    × Reset positive pos (pos 70) due u s
    × (handle_read positive pos idle (pos 70) (pos 71) three ≡ ok r)
    × (r ≡ record s { timerfd = armed_for (pos 71) (first_time s.timers) u.timerfd })
handle_read_lem_example =
    handle_read_lem positive pos idle (pos 70) (pos 71) three three-IsValid idle-IsTame

how_much_time_from_now_lem_example :
    let t = how_much_time_from_now (pos 10) (pos 1500010) in
    (t.tv_nsec < 1000000000)
    × (100 ≤ in_micros t)
    × (pos 10 +ℤ pos (in_micros t) ≡ max_ℤ (pos 1500010) (pos 10 +ℤ pos 100))
how_much_time_from_now_lem_example = how_much_time_from_now_lem (pos 10) (pos 1500010)

destroy_lem_example :
    (h : ℕ → Option (Timer ℕ)) × (destroy three ≡ ok h)
    × All (λ e. h e.timer ≡ none) three.timers
    × ((p : ℕ) → All (Apart p) three.timers → h p ≡ three.timer_at p)
destroy_lem_example = destroy_lem three three-IsValid
