-- ===== src/TimerQueue/Timespec.antt =====
-- `howMuchTimeFromNow` of mtnet/TimerQueue.cc.
use mtnet.Prelude.{
  ℕ, ◌+◌, ◌*◌, ◌/◌, ◌≡◌, ◌<◌, ◌≤◌, refl, arith, Bool-cases, inl, inr, ltb→lt, ltb_false→le,
}
use mtnet.Prelude.Int.{
  ℤ, pos, negsuc, pos_part, neg_part, ltb_ℤ, ◌-ℤ◌, -ℤ_parts, ◌≤ℤ◌, ◌+ℤ◌, +ℤ_parts, eq_of_parts,
  max_ℤ,
}
use mtnet.Timestamp.{Timestamp}
use mtnet.TimerQueue.Defs.{Timespec, how_much_time_from_now, micro_seconds}

-- The time that the two fields stand for, in microseconds.
abbrev pub in_micros : Timespec → ℕ
in_micros t = t.tv_sec * 1000000 + t.tv_nsec / 1000

in_micros-how_much_time :
    (now when : Timestamp) → in_micros (how_much_time_from_now now when) ≡ micro_seconds now when
unfolding how_much_time_from_now
in_micros-how_much_time now when = omega arith

micro_seconds_bounds :
    (now when : Timestamp)
    → (100 ≤ micro_seconds now when)
      × (now +ℤ pos 100 ≤ℤ when → now +ℤ pos (micro_seconds now when) ≡ when)
      × (when ≤ℤ now +ℤ pos 100 → micro_seconds now when ≡ 100)
unfolding micro_seconds
micro_seconds_bounds now when =
    let d = when -ℤ now in
    let dp = -ℤ_parts when now in
    let hp = +ℤ_parts now (pos 100) in
    elim (Bool-cases (ltb_ℤ d (pos 100))) [
      | inl soon ↦
          let lt = ltb→lt (pos_part d + 0) (100 + neg_part d) soon in
          rw soon (omega arith, λ h. eq_of_parts _ _ (omega (arith, h, dp, hp, lt)), λ h. refl)
      | inr later ↦
          let ge = ltb_false→le (pos_part d + 0) (100 + neg_part d) later in
          let whole : neg_part d ≡ 0 = one_sign d (omega (arith, ge)) in
          rw later (
            omega (arith, ge),
            λ h.
                let p = +ℤ_parts now (pos (pos_part d)) in
                eq_of_parts _ _ (omega (arith, p, dp, whole)),
            λ h. omega (arith, h, dp, hp, ge, whole),
          )
    ]
  where
    one_sign : (z : ℤ) → 0 < pos_part z → neg_part z ≡ 0
    one_sign (pos n) h = refl
    one_sign (negsuc n) h = absurd (omega arith)

-- What `resetTimerfd` arms the timerfd with is a proper timespec, with less than a second in
-- nanoseconds; it is at least 100 microseconds, so that it never disarms the timer; and counted from
-- `now` it ends at `when`, or 100 microseconds after `now` if that is later.
pub how_much_time_from_now_lem :
    (now when : Timestamp)
    → let t = how_much_time_from_now now when in
      (t.tv_nsec < 1000000000)
      × (100 ≤ in_micros t)
      × (now +ℤ pos (in_micros t) ≡ max_ℤ when (now +ℤ pos 100))
unfolding how_much_time_from_now
how_much_time_from_now_lem now when =
    let e = in_micros-how_much_time now when in
    let m = micro_seconds_bounds now when in
    (
      omega arith,
      rw e m.0,
      elim (Bool-cases (ltb_ℤ when (now +ℤ pos 100))) [
        | inl soon ↦ rw (soon, e, m.2 (ground arith)) refl
        | inr later ↦ rw (later, e, m.1 (ground arith)) refl
      ],
    )
