-- ===== src/TimerQueue/Queue.antt =====
-- The invariant of the timer queue, and its operations `addTimer`, `addTimerInloop` and `getExpired`.
use mathlib.Core.List.{Perm}
use mtnet.Prelude.{
  ℕ, ◌≡◌, ◌⊎◌, ◌<◌, refl, ap, inl, inr, false, List, [], ◌∷◌, Option, none, some, ok, arith,
  Bool-cases, ltb_false→le,
}
use mtnet.Prelude.Int.{eq_of_parts}
use mtnet.Timestamp.{Timestamp}
use mtnet.TimerQueue.Defs.{
  Timer, Entry, TimerQueue, entry_lt, set_insert, uintptr_max, later_or_end, insert,
  add_timer_in_loop, how_much_time_from_now, reset_timerfd,
}
use mtnet.TimerQueue.Order.{
  All, Sorted, Apart, entry_lt-time, set_insert-All, set_insert-Sorted, set_insert-front,
}

-- The timer of an entry exists, at an address that the sentry's exceeds, and has the entry's time.
abbrev pub Live : {D : Type 0} → (ℕ → Option (Timer D)) → Entry → Type 0
Live {D} timer_at e =
    (e.timer < uintptr_max)
    × ((t : Timer D) × (timer_at e.timer ≡ some t) × (t.expiration ≡ e.time))

pub record IsValid {D : Type 0} (q : TimerQueue D) : Type 0 where
  pub sorted : Sorted q.timers
  pub live : All (Live q.timer_at) q.timers

module _ {D : Type 0} where
  -- A timer that is not in the set is inserted.
  pub insert_lem :
      (p : ℕ) (q : TimerQueue D) (t : Timer D)
      → IsValid q
      → q.timer_at p ≡ some t
      → p < uintptr_max
      → All (Apart p) q.timers
      → let e : Entry = record { time = t.expiration; timer = p } in
        let r = record q { timers = (set_insert e q.timers).0 } in
        (insert p q ≡ ok (r, later_or_end t.expiration q.timers))
        × IsValid r
        × Perm r.timers (e ∷ q.timers)
  unfolding insert
  insert_lem p q t v at small apart =
      let e : Entry = record { time = t.expiration; timer = p } in
      let (sorted, new, perm) = set_insert-Sorted e q.timers apart v.sorted in
      (
        rw (at, new),
        record {
          sorted = sorted;
          live = set_insert-All (Live q.timer_at) e q.timers (small, (t, at, refl)) v.live;
        },
        perm,
      )

-- The expiration of the first timer.
abbrev pub first_time : List Entry → Option Timestamp
first_time [] = none
first_time (x ∷ xs) = some x.time

set_insert-first_time :
    (e : Entry) (l : List Entry)
    → later_or_end e.time l ≡ false
    → first_time (set_insert e l).0 ≡ first_time l
unfolding set_insert
set_insert-first_time e [] h = cc
set_insert-first_time e (x ∷ xs) h = elim (Bool-cases (entry_lt e x)) [
  | inl before ↦
      let same : e.time ≡ x.time =
        eq_of_parts e.time x.time (omega (arith, ltb_false→le _ _ h, entry_lt-time e x before)) in
      rw (before, set_insert) (ap some same)
  | inr after ↦ elim (Bool-cases (entry_lt x e)) [
    | inl p ↦ rw (after, p, set_insert)
    | inr p ↦ rw (after, p, set_insert)
  ]
]

module _ {D : Type 0} where
  -- What `addTimerInloop` leaves: the timerfd is armed for the new timer if this is the first to
  -- expire, and otherwise neither the timerfd nor the first expiration changes.
  pub record Added (now : Timestamp) (t : Timer D) (q r : TimerQueue D) : Type 0 where
    pub valid : IsValid r
    pub heap : r.timer_at ≡ q.timer_at
    pub armed :
        ((r.timerfd ≡ some (how_much_time_from_now now t.expiration))
          × (first_time r.timers ≡ some t.expiration))
        ⊎ ((r.timerfd ≡ q.timerfd) × (first_time r.timers ≡ first_time q.timers))

  -- `addTimerInloop`, on a valid queue, of a timer that is not in the set and stands at an address
  -- below the sentry's succeeds: the assertion of `insert` holds, the
  -- set then holds the timer and what it held before, in order, and the timerfd is armed for the
  -- new timer if it is now the first to expire, and else left alone with the first expiration.
  pub add_timer_in_loop_lem :
      (now : Timestamp) (p : ℕ) (q : TimerQueue D) (t : Timer D)
      → IsValid q
      → q.timer_at p ≡ some t
      → p < uintptr_max
      → All (Apart p) q.timers
      → (r : TimerQueue D) × (add_timer_in_loop now p q ≡ ok r)
        × Added now t q r
        × Perm r.timers (record { time = t.expiration; timer = p } ∷ q.timers)
  unfolding add_timer_in_loop reset_timerfd
  add_timer_in_loop_lem now p q t v at small apart =
      let e : Entry = record { time = t.expiration; timer = p } in
      let (inserted, valid, perm) = insert_lem p q t v at small apart in
      elim (Bool-cases (later_or_end t.expiration q.timers)) [
        | inl first ↦ (
          record q {
            timers = (set_insert e q.timers).0;
            timerfd = some (how_much_time_from_now now t.expiration);
          },
          rw (inserted, at, first),
          record {
            valid = record { sorted = valid.sorted; live = valid.live };
            heap = refl;
            armed = inl (refl, ap first_time (set_insert-front e q.timers first));
          },
          perm,
        )
        | inr later ↦ (
          record q { timers = (set_insert e q.timers).0 },
          rw (inserted, at, later),
          record {
            valid = valid;
            heap = refl;
            armed = inr (refl, set_insert-first_time e q.timers later);
          },
          perm,
        )
      ]
