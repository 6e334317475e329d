-- ===== src/TimerQueue/Handle.antt =====
-- `reset` and `handleRead` of mtnet/TimerQueue.cc: one expiry of the timerfd.
use mtnet.Prelude.{
  ℕ, ◌≡◌, refl, sym, ap, ◌∙◌, subst, Bool, true, false, List, [], ◌∷◌, ◌++◌, Option, none, some,
  Result, ok, arith, if◌then◌else◌,
}
use mtnet.Prelude.Int.{ℤ, pos}
use mtnet.Timestamp.{Timestamp, vaild}
use mtnet.TimerQueue.Defs.{
  Timer, Entry, Timespec, TimerQueue, reset, next_expire, run_all, handle_read, reset_timerfd,
  how_much_time_from_now,
}
use mtnet.TimerQueue.Order.{All, All-append_left, All-append_right, Sorted, Before, Apart}
use mtnet.TimerQueue.Queue.{IsValid, Live, first_time}
use mtnet.TimerQueue.Expired.{Due, Later, get_expired_lem}
use mtnet.TimerQueue.Reset.{Pending, Separate, Reset, reset_all_lem}

module _ {D : Type 0} where
  -- Entries in order are of different timers: a timer has one expiration.
  Before-Apart :
      (h : ℕ → Option (Timer D)) (x y : Entry) → Before x y → Live h x → Live h y → Apart x.timer y
  Before-Apart h x y b (sx, (t, at, ex)) (sy, (u, au, ey)) same =
      let e : some t ≡ some u = sym at ∙ ap h (sym same) ∙ au in
      let times : x.time ≡ y.time = sym ex ∙ ap (λ o. expiration_of o) e ∙ ey in
      irreflexive x y b times (sym same)
    where
      expiration_of : Option (Timer D) → Timestamp
      expiration_of none = x.time
      expiration_of (some v) = v.expiration

      irreflexive : (a c : Entry) → Before a c → a.time ≡ c.time → a.timer ≡ c.timer → ⊥
      irreflexive a c k e f = ground arith

  -- No later entry has the timer of the first one.
  pub first-Apart :
      (h : ℕ → Option (Timer D)) (x : Entry) (xs : List Entry)
      → All (Before x) xs
      → Live h x
      → All (Live h) xs
      → All (Apart x.timer) xs
  first-Apart h x [] b l m = tt
  first-Apart h x (y ∷ ys) b l m = (Before-Apart h x y b.0 l m.0, first-Apart h x ys b.1 l m.1)

  Sorted-Separate :
      (h : ℕ → Option (Timer D)) (due rest : List Entry)
      → Sorted (due ++ rest)
      → All (Live h) (due ++ rest)
      → Separate due rest
  Sorted-Separate h [] rest s l = tt
  Sorted-Separate h (x ∷ xs) rest s l =
      let apart = first-Apart h x (xs ++ rest) s.0 l.0 l.1 in
      (
        All-append_left (Apart x.timer) xs rest apart,
        All-append_right (Apart x.timer) xs rest apart,
        Sorted-Separate h xs rest s.1 l.1,
      )

  -- The expired timers are pending.
  expired-Pending :
      (q : TimerQueue D) (due rest : List Entry)
      → IsValid q
      → due ++ rest ≡ q.timers
      → IsValid (record q { timers = rest })
      → Pending due (record q { timers = rest })
  expired-Pending q due rest v whole valid =
      let live = subst (All (Live q.timer_at)) (sym whole) v.live in
      record {
        valid = valid;
        waiting = All-append_left (Live q.timer_at) due rest live;
        separate = Sorted-Separate q.timer_at due rest (subst Sorted (sym whole) v.sorted) live;
      }

  -- Callbacks that may add timers, but neither delete nor change nor insert pending ones, and that
  -- keep the queue valid.
  abbrev pub IsTame : (ℕ → TimerQueue D → Result (TimerQueue D)) → Type 0
  IsTame call =
      (es : List Entry) (f : ℕ) (q : TimerQueue D)
      → Pending es q
      → (r : TimerQueue D) × (call f q ≡ ok r) × Pending es r

  run_all-Pending :
      (call : ℕ → TimerQueue D → Result (TimerQueue D)) (due es : List Entry) (q : TimerQueue D)
      → IsTame call
      → ((r : TimerQueue D) → Pending due r → All (Live r.timer_at) es)
      → Pending due q
      → (r : TimerQueue D) × (run_all call es q ≡ ok r) × Pending due r
  unfolding run_all
  run_all-Pending call due [] q tame alive p = (q, refl, p)
  run_all-Pending call due (e ∷ es) q tame alive p =
      let (small, (t, at, same)) = (alive q p).0 in
      let (r, done, p') = tame due t.callback q p in
      let (s, rest, p'') = run_all-Pending call due es r tame (λ u k. (alive u k).1) p' in
      (s, rw (at, done, run_all) rest, p'')

-- The timerfd after `reset`: armed for the first timer, if there is one with a time after the epoch.
abbrev pub armed_for : Timestamp → Option Timestamp → Option Timespec → Option Timespec
armed_for later none old = old
armed_for later (some t) old = if vaild t then some (how_much_time_from_now later t) else old

next_expire_lem :
    {D : Type 0} (l : List Entry) (q : TimerQueue D)
    → All (Live q.timer_at) l
    → (t : Timestamp) × (next_expire l q ≡ ok t)
      × ((later : Timestamp) (old : Option Timespec)
          → (if vaild t then some (how_much_time_from_now later t) else old)
            ≡ armed_for later (first_time l) old)
unfolding next_expire
next_expire_lem [] q v = (pos 0, refl, λ later old. refl)
next_expire_lem (x ∷ xs) q v =
    let (small, (t, at, same)) = v.0 in (x.time, rw (at, same), λ later old. refl)

set_timerfd_if :
    {D : Type 0} (b : Bool) (s : TimerQueue D) (new old : Option Timespec)
    → s.timerfd ≡ old
    → (if b then record s { timerfd = new } else s) ≡ record s { timerfd = if b then new else old }
set_timerfd_if true s new old e = refl
set_timerfd_if false s new old e = λ i. record s { timerfd = e i }

module _ {D : Type 0} (positive : D → Bool) (micros : D → ℤ) where
  reset_lem :
      (later now : Timestamp) (due : List Entry) (q : TimerQueue D)
      → Pending due q
      → (s r : TimerQueue D) × (reset positive micros later due now q ≡ ok r)
        × Reset positive micros now due q s
        × (r ≡ record s { timerfd = armed_for later (first_time s.timers) q.timerfd })
  unfolding reset reset_timerfd
  reset_lem later now due q p =
      let (s, done, rs) = reset_all_lem positive micros now due q p in
      let (t, next, armed) = next_expire_lem s.timers s rs.valid.live in
      (
        s,
        if vaild t then record s { timerfd = some (how_much_time_from_now later t) } else s,
        rw (done, next),
        rs,
        set_timerfd_if (vaild t) s (some (how_much_time_from_now later t)) q.timerfd rs.timerfd
            ∙ ap (λ x. record s { timerfd = x }) (armed later q.timerfd),
      )

  -- One expiry of the timerfd, on a valid queue and with tame callbacks, runs to the end with no
  -- failed assertion and no use of a deleted timer. The entries due at `now` are taken out, all the
  -- later ones stay, and the callbacks run; then each repeating timer among the due ones is in the
  -- set again, once, for `now` plus its interval, the others are deleted, all other entries are as
  -- the callbacks left them, the queue is valid, and the timerfd is armed for the first timer, if
  -- there is one with a time after the epoch.
  pub handle_read_lem :
      (call : ℕ → TimerQueue D → Result (TimerQueue D)) (now later : Timestamp) (q : TimerQueue D)
      → IsValid q
      → IsTame call
      → (due rest : List Entry) × (u s r : TimerQueue D) × (due ++ rest ≡ q.timers)
        × All (Due now) due
        × All (Later now) rest
        × (run_all call due (record q { timers = rest }) ≡ ok u)
        × Reset positive micros now due u s
        × (handle_read positive micros call now later q ≡ ok r)
        × (r ≡ record s { timerfd = armed_for later (first_time s.timers) u.timerfd })
  unfolding handle_read
  handle_read_lem call now later q v tame =
      let (due, rest, taken, whole, all_due, all_later, valid) = get_expired_lem now q v in
      let (u, ran, p) =
        run_all-Pending call due due (record q { timers = rest }) tame (λ r k. k.waiting)
          (expired-Pending q due rest v whole valid) in
      let (s, r, done, rs, armed) = reset_lem later now due u p in
      (due, rest, u, s, r, whole, all_due, all_later, ran, rs, rw (taken, ran) done, armed)
