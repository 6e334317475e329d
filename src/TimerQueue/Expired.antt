-- ===== src/TimerQueue/Expired.antt =====
-- `getExpired` of mtnet/TimerQueue.cc splits the set at the present time.
use mtnet.Prelude.{
  ◌≡◌, ◌<◌, refl, sym, ap, subst, inl, inr, true, false, List, [], ◌∷◌, ◌++◌, ok, arith, Bool-cases,
}
use mtnet.Prelude.Int.{◌<ℤ◌, ◌≤ℤ◌}
use mtnet.Timestamp.{Timestamp}
use mtnet.TimerQueue.Defs.{
  Entry, TimerQueue, entry_lt, split_lower_bound, uintptr_max, later_or_end, get_expired,
}
use mtnet.TimerQueue.Order.{All, All-map, All-append_right, Sorted, Before, entry_lt-time}
use mtnet.TimerQueue.Queue.{IsValid, Live}

abbrev sentry : Timestamp → Entry
sentry now = record { time = now; timer = uintptr_max }

abbrev Small : Entry → Type 0
Small e = e.timer < uintptr_max

abbrev pub Due : Timestamp → Entry → Type 0
Due now e = e.time ≤ℤ now

abbrev pub Later : Timestamp → Entry → Type 0
Later now e = now <ℤ e.time

Before-sentry : (now : Timestamp) (e : Entry) → Before e (sentry now) → Due now e
Before-sentry now e h = entry_lt-time e (sentry now) h

after_sentry :
    (now : Timestamp) (e : Entry) → Small e → entry_lt e (sentry now) ≡ false → Later now e
after_sentry now e small h = ground arith

Later-trans : (now : Timestamp) (a b : Entry) → Later now a → Before a b → Later now b
Later-trans now a b h k = omega (arith, entry_lt-time a b k)

pub record Split (now : Timestamp) (l : List Entry) (due rest : List Entry) : Type 0 where
  pub whole : due ++ rest ≡ l
  pub all_due : All (Due now) due
  pub all_later : All (Later now) rest
  pub sorted : Sorted rest

split_lower_bound-Split :
    (now : Timestamp) (l : List Entry)
    → All Small l
    → Sorted l
    → let s = split_lower_bound (sentry now) l in Split now l s.0 s.1
unfolding split_lower_bound
split_lower_bound-Split now [] small s = record {
  whole = refl;
  all_due = tt;
  all_later = tt;
  sorted = tt;
}
split_lower_bound-Split now (x ∷ xs) small s = elim (Bool-cases (entry_lt x (sentry now))) [
  | inl before ↦
      let r = split_lower_bound-Split now xs small.1 s.1 in
      rw (before, split_lower_bound)
        (record {
          whole = ap (◌∷◌ x) r.whole;
          all_due = (Before-sentry now x before, r.all_due);
          all_later = r.all_later;
          sorted = r.sorted;
        })
  | inr after ↦
      let late = after_sentry now x small.0 after in
      rw (after, split_lower_bound)
        (record {
          whole = refl;
          all_due = tt;
          all_later = (late, All-map (Before x) (Later now) xs (λ y. Later-trans now x y late) s.0);
          sorted = s;
        })
]

module _ {D : Type 0} where
  -- `getExpired` of a valid queue succeeds: its assertion holds, since no timer stands at the
  -- sentry's address. It takes out, in their order, exactly the entries that are due, and every
  -- entry that stays is later than `now`; the rest of the queue is unchanged and valid.
  pub get_expired_lem :
      (now : Timestamp) (q : TimerQueue D)
      → IsValid q
      → (due rest : List Entry) × (get_expired now q ≡ ok (due, record q { timers = rest }))
        × (due ++ rest ≡ q.timers)
        × All (Due now) due
        × All (Later now) rest
        × IsValid (record q { timers = rest })
  unfolding get_expired
  get_expired_lem now q v =
      let small = All-map (Live q.timer_at) Small q.timers (λ e l. l.0) v.live in
      let r = split_lower_bound-Split now q.timers small v.sorted in
      let due = (split_lower_bound (sentry now) q.timers).0 in
      let rest = (split_lower_bound (sentry now) q.timers).1 in
      (
        due,
        rest,
        rw (guard_holds now rest r.all_later),
        r.whole,
        r.all_due,
        r.all_later,
        record {
          sorted = r.sorted;
          live =
              All-append_right (Live q.timer_at) due rest
                (subst (All (Live q.timer_at)) (sym r.whole) v.live);
        },
      )
    where
      guard_holds : (t : Timestamp) (l : List Entry) → All (Later t) l → later_or_end t l ≡ true
      guard_holds t [] h = refl
      guard_holds t (x ∷ xs) h = ground arith
