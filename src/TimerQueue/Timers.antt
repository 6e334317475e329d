-- ===== src/TimerQueue/Timers.antt =====
-- `runAt`, `runAfter` and `runEvery` of mtnet/EventLoop.cc, in the loop's thread, and the `addTimer` of
-- mtnet/TimerQueue.cc that they call.
use mathlib.Core.List.{Perm}
use mtnet.Prelude.{
  ℕ, ◌≡◌, ◌<◌, sym, ap, subst, ◌∙◌, Bool, true, false, List, [], ◌∷◌, Option, none, some, Result,
  ok,
}
use mtnet.Prelude.Int.{ℤ}
use mtnet.Prelude.Maps.{update, update_self}
use mtnet.Timestamp.{Timestamp, add_time}
use mtnet.TimerQueue.Defs.{Timer, Entry, TimerQueue, uintptr_max, add_timer, new_timer}
use mtnet.TimerQueue.Order.{All, Apart}
use mtnet.TimerQueue.Queue.{IsValid, Live, Added, add_timer_in_loop_lem}
use mtnet.TimerQueue.Reset.{update-Live}

-- `zero` is 0.0; `clock` is the time when `Timestamp::now()` is called, `now` that when the timerfd is
-- armed.
module _ {D : Type 0} (positive : D → Bool) (micros : D → ℤ) (zero : D) where
  unfoldable pub run_at : Timestamp → ℕ → Timestamp → ℕ → TimerQueue D → Result (TimerQueue D)
  run_at now p time cb q = add_timer positive micros now p cb time zero q

  unfoldable pub run_after :
      Timestamp → Timestamp → ℕ → D → ℕ → TimerQueue D → Result (TimerQueue D)
  unfolding run_at
  run_after clock now p delay cb q = run_at now p (add_time clock (micros delay)) cb q

  unfoldable pub run_every :
      Timestamp → Timestamp → ℕ → D → ℕ → TimerQueue D → Result (TimerQueue D)
  run_every clock now p interval cb q =
      add_timer positive micros now p cb (add_time clock (micros interval)) interval q

module _ {D : Type 0} where
  -- No timer of the queue stands at an unused address.
  unused-Apart :
      (h : ℕ → Option (Timer D)) (p : ℕ) (l : List Entry)
      → h p ≡ none
      → All (Live h) l
      → All (Apart p) l
  unused-Apart h p [] free v = tt
  unused-Apart h p (x ∷ xs) free v =
      let (small, (t, at, same)) = v.0 in
      ((λ e. some-none t (sym at ∙ ap h e ∙ free)), unused-Apart h p xs free v.1)
    where
      some-none : (t : Timer D) → some t ≡ none → ⊥
      some-none t h = cc

-- What a new timer `t` at `p` leaves.
pub record Scheduled {D : Type 0} (now : Timestamp) (p : ℕ) (t : Timer D) (q r : TimerQueue D)
    : Type 0 where
  pub added : Added now t (record q { timer_at = update q.timer_at p (some t) }) r
  pub timer : r.timer_at p ≡ some t
  pub perm : Perm r.timers (record { time = t.expiration; timer = p } ∷ q.timers)

module _ {D : Type 0} (positive : D → Bool) (micros : D → ℤ) where
  add_timer_lem :
      (now : Timestamp) (p cb : ℕ) (when : Timestamp) (interval : D) (q : TimerQueue D)
      → IsValid q
      → q.timer_at p ≡ none
      → p < uintptr_max
      → (r : TimerQueue D) × (add_timer positive micros now p cb when interval q ≡ ok r)
        × Scheduled now p (new_timer positive micros cb when interval) q r
  unfolding add_timer new_timer
  add_timer_lem now p cb when interval q v free small =
      let t = new_timer positive micros cb when interval in
      let apart = unused-Apart q.timer_at p q.timers free v.live in
      let s : TimerQueue D = record q { timer_at = update q.timer_at p (some t) } in
      let valid : IsValid s = record {
        sorted = v.sorted;
        live = update-Live q.timer_at p (some t) q.timers apart v.live;
      } in
      let here = update_self q.timer_at p (some t) in
      let (r, done, added, perm) = add_timer_in_loop_lem now p s t valid here small apart in
      (
        r,
        done,
        record {
          added = added;
          timer = ap (λ (f : ℕ → Option (Timer D)). f p) added.heap ∙ here;
          perm = perm;
        },
      )

  -- `runEvery` of a positive interval, on a valid queue and with an unused address below the sentry's: the
  -- queue stays valid, holds the old timers and the new one, which repeats and first expires at the
  -- present time plus the interval, and the timerfd is armed for it if it is the first.
  pub run_every_lem :
      (zero : D) (clock now : Timestamp) (p : ℕ) (interval : D) (cb : ℕ) (q : TimerQueue D)
      → IsValid q
      → q.timer_at p ≡ none
      → p < uintptr_max
      → positive interval ≡ true
      → (r : TimerQueue D) × (run_every positive micros zero clock now p interval cb q ≡ ok r)
        × Scheduled now p
            (record {
              callback = cb;
              expiration = add_time clock (micros interval);
              interval = interval;
              repeat = true;
            })
            q
            r
  unfolding run_every new_timer
  run_every_lem zero clock now p interval cb q v free small pos_interval =
      let (r, done, s) =
        add_timer_lem now p cb (add_time clock (micros interval)) interval q v free small in
      (
        r,
        done,
        subst
            (λ b.
              Scheduled now p
                (record {
                  callback = cb;
                  expiration = add_time clock (micros interval);
                  interval = interval;
                  repeat = b;
                })
                q r)
            pos_interval s,
      )

  -- `runAfter`, on a valid queue and with an unused address below the sentry's, where 0.0 is not positive:
  -- the queue stays valid, holds the old timers and the new one, which does not repeat and expires at
  -- the present time plus the delay, and the timerfd is armed for it if it is the first.
  pub run_after_lem :
      (zero : D) (clock now : Timestamp) (p : ℕ) (delay : D) (cb : ℕ) (q : TimerQueue D)
      → IsValid q
      → q.timer_at p ≡ none
      → p < uintptr_max
      → positive zero ≡ false
      → (r : TimerQueue D) × (run_after positive micros zero clock now p delay cb q ≡ ok r)
        × Scheduled now p
            (record {
              callback = cb;
              expiration = add_time clock (micros delay);
              interval = zero;
              repeat = false;
            })
            q
            r
  unfolding run_after new_timer
  run_after_lem zero clock now p delay cb q v free small no_interval =
      let (r, done, s) =
        add_timer_lem now p cb (add_time clock (micros delay)) zero q v free small in
      (
        r,
        done,
        subst
            (λ b.
              Scheduled now p
                (record {
                  callback = cb;
                  expiration = add_time clock (micros delay);
                  interval = zero;
                  repeat = b;
                })
                q r)
            no_interval s,
      )
