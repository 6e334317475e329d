-- ===== src/TimerQueue/Reset.antt =====
-- The loop of `TimerQueue::reset`: repeating timers start anew, the others are deleted.
use mathlib.Core.List.{Perm, perm_append_comm}
use mathlib.Core.List.Perm
use mtnet.Prelude.{
  some_injective, ℕ, ◌≡◌, ◌<◌, refl, sym, ap, ◌∙◌, subst, inl, inr, Bool, true, List, [], ◌∷◌, ◌++◌,
  Option, none, some, ok, append_assoc, if◌then◌else◌, Bool-cases,
}
use mtnet.Prelude.Int.{ℤ}
use mtnet.Prelude.Maps.{update, update_self, update_ne}
use mtnet.Timestamp.{Timestamp, add_time}
use mtnet.TimerQueue.Defs.{
  Timer, Entry, TimerQueue, set_insert, uintptr_max, restart, reset_one, reset_all,
}
use mtnet.TimerQueue.Order.{All, Apart, set_insert-All}
use mtnet.TimerQueue.Queue.{IsValid, Live, insert_lem}

-- The timers of `es` differ from one another and from those of `l`.
abbrev pub Separate : List Entry → List Entry → Type 0
Separate [] l = Unit
Separate (e ∷ es) l = All (Apart e.timer) es × All (Apart e.timer) l × Separate es l

-- Timers that were taken out of the queue and are still there.
pub record Pending {D : Type 0} (es : List Entry) (q : TimerQueue D) : Type 0 where
  pub valid : IsValid q
  pub waiting : All (Live q.timer_at) es
  pub separate : Separate es q.timers

-- Writing to one timer leaves the others live.
pub update-Live :
    {D : Type 0} (h : ℕ → Option (Timer D)) (p : ℕ) (o : Option (Timer D)) (l : List Entry)
    → All (Apart p) l
    → All (Live h) l
    → All (Live (update h p o)) l
update-Live h p o [] a v = tt
update-Live h p o (x ∷ xs) a v =
    let (small, (t, at, same)) = v.0 in
    ((small, (t, update_ne h p o x.timer a.0 ∙ at, same)), update-Live h p o xs a.1 v.1)

insert-Separate :
    (e : Entry) (es l : List Entry)
    → All (Apart e.timer) es
    → Separate es l
    → Separate es (set_insert e l).0
insert-Separate e [] l a s = tt
insert-Separate e (x ∷ xs) l a s =
    (s.0, set_insert-All (Apart x.timer) e l (λ q. a.0 (sym q)) s.1, insert-Separate e xs l a.1 s.2)

regroup : (a b l m : List Entry) → Perm m (b ++ l) → Perm (a ++ m) ((b ++ a) ++ l)
regroup a b l m h = Perm.trans (Perm.append (Perm.refl a) h) (
    subst (λ x. Perm x ((b ++ a) ++ l)) (append_assoc a b l)
      (Perm.append (perm_append_comm a b) (Perm.refl l)))

module _ {D : Type 0} (positive : D → Bool) (micros : D → ℤ) (now : Timestamp) where
  -- The timer after its turn.
  abbrev pub renewed : Timer D → Option (Timer D)
  renewed t = if t.repeat then some (restart positive micros t now) else none

  -- The entries that the repeating timers among `es` get.
  abbrev again_one : Option (Timer D) → ℕ → List Entry
  again_one none p = []
  again_one (some t) p =
      if t.repeat then record { time = add_time now (micros t.interval); timer = p } ∷ [] else []

  pub again : (ℕ → Option (Timer D)) → List Entry → List Entry
  again h [] = []
  again h (e ∷ es) = again_one (h e.timer) e.timer ++ again h es

  again-update :
      (h : ℕ → Option (Timer D)) (p : ℕ) (o : Option (Timer D)) (es : List Entry)
      → All (Apart p) es
      → again (update h p o) es ≡ again h es
  unfolding again
  again-update h p o [] a = refl
  again-update h p o (x ∷ xs) a =
      rw (update_ne h p o x.timer a.0)
        (ap (◌++◌ (again_one (h x.timer) x.timer)) (again-update h p o xs a.1))

  -- What one round leaves.
  record Stepped (e : Entry) (t : Timer D) (q r : TimerQueue D) : Type 0 where
    valid : IsValid r
    heap : r.timer_at ≡ update q.timer_at e.timer (renewed t)
    perm : Perm r.timers (again_one (some t) e.timer ++ q.timers)
    others :
        (es : List Entry) → All (Apart e.timer) es → Separate es q.timers → Separate es r.timers
    timerfd : r.timerfd ≡ q.timerfd

  restart-expiration :
      (t : Timer D)
      → t.repeat ≡ true
      → (restart positive micros t now).expiration ≡ add_time now (micros t.interval)
  unfolding restart
  restart-expiration t h = rw h

  reset_one-repeat :
      (e : Entry) (q : TimerQueue D) (t : Timer D)
      → IsValid q
      → q.timer_at e.timer ≡ some t
      → e.timer < uintptr_max
      → All (Apart e.timer) q.timers
      → t.repeat ≡ true
      → (r : TimerQueue D) × (reset_one positive micros now e q ≡ ok r) × Stepped e t q r
  unfolding reset_one
  reset_one-repeat e q t v at small apart repeats =
      let u = restart positive micros t now in
      let heap = update q.timer_at e.timer (some u) in
      let valid : IsValid (record q { timer_at = heap }) = record {
        sorted = v.sorted;
        live = update-Live q.timer_at e.timer (some u) q.timers apart v.live;
      } in
      let (inserted, valid', perm) =
        insert_lem e.timer (record q { timer_at = heap }) u valid
          (update_self q.timer_at e.timer (some u)) small apart in
      let x : Entry = record { time = u.expiration; timer = e.timer } in
      (
        record q { timers = (set_insert x q.timers).0; timer_at = heap },
        rw at (simp repeats (rw inserted)),
        record {
          valid = valid';
          heap = simp repeats;
          perm = simp repeats (
              subst
                (λ z.
                  Perm (set_insert x q.timers).0 (record { time = z; timer = e.timer } ∷ q.timers))
                (restart-expiration t repeats) perm);
          others = λ es a s. insert-Separate x es q.timers a s;
          timerfd = refl;
        },
      )

  reset_one_lem :
      (e : Entry) (q : TimerQueue D) (t : Timer D)
      → IsValid q
      → q.timer_at e.timer ≡ some t
      → e.timer < uintptr_max
      → All (Apart e.timer) q.timers
      → (r : TimerQueue D) × (reset_one positive micros now e q ≡ ok r) × Stepped e t q r
  unfolding reset_one
  reset_one_lem e q t v at small apart = elim (Bool-cases t.repeat) [
    | inl repeats ↦ reset_one-repeat e q t v at small apart repeats
    | inr once ↦ (
      record q { timer_at = update q.timer_at e.timer none },
      rw (at, once),
      record {
        valid = record {
          sorted = v.sorted;
          live = update-Live q.timer_at e.timer none q.timers apart v.live;
        };
        heap = rw once;
        perm = rw once (Perm.refl q.timers);
        others = λ es a s. s;
        timerfd = refl;
      },
    )
  ]

  -- What the loop of `reset` leaves.
  pub record Reset (es : List Entry) (q r : TimerQueue D) : Type 0 where
    pub valid : IsValid r
    pub perm : Perm r.timers (again q.timer_at es ++ q.timers)
    pub outcome :
        All (λ e. (t : Timer D) → q.timer_at e.timer ≡ some t → r.timer_at e.timer ≡ renewed t) es
    pub others : (p : ℕ) → All (Apart p) es → r.timer_at p ≡ q.timer_at p
    pub timerfd : r.timerfd ≡ q.timerfd

  Reset-cons :
      (e : Entry) (es : List Entry) (q s r : TimerQueue D) (t : Timer D)
      → q.timer_at e.timer ≡ some t
      → Pending (e ∷ es) q
      → Stepped e t q s
      → Reset es s r
      → Reset (e ∷ es) q r
  unfolding again
  Reset-cons e es q s r t at p st rs = record {
    valid = rs.valid;
    perm =
        let front = again_one (some t) e.timer in
        let same : again s.timer_at es ≡ again q.timer_at es =
          ap (λ h. again h es) st.heap
          ∙ again-update q.timer_at e.timer (renewed t) es p.separate.0 in
        rw at (
          Perm.trans (subst (λ l. Perm r.timers (l ++ s.timers)) same rs.perm)
            (regroup (again q.timer_at es) front q.timers s.timers st.perm));
    outcome = (
      λ u at'.
          rs.others e.timer p.separate.0
          ∙ ap (λ h. h e.timer) st.heap
          ∙ update_self q.timer_at e.timer (renewed t)
          ∙ ap renewed (some_injective (sym at ∙ at')),
      outcomes es p.separate.0 rs.outcome,
    );
    others = λ k a.
        rs.others k a.1
        ∙ ap (λ h. h k) st.heap
        ∙ update_ne q.timer_at e.timer (renewed t) k (λ x. a.0 (sym x));
    timerfd = rs.timerfd ∙ st.timerfd;
  }
    where
      outcomes :
          (l : List Entry)
          → All (Apart e.timer) l
          → All
              (λ x. (u : Timer D) → s.timer_at x.timer ≡ some u → r.timer_at x.timer ≡ renewed u)
              l
          → All
              (λ x. (u : Timer D) → q.timer_at x.timer ≡ some u → r.timer_at x.timer ≡ renewed u)
              l
      outcomes [] a h = tt
      outcomes (x ∷ xs) a h = (
        λ u old. h.0 u (
            ap (λ f. f x.timer) st.heap
            ∙ update_ne q.timer_at e.timer (renewed t) x.timer a.0
            ∙ old),
        outcomes xs a.1 h.1,
      )

  -- The loop of `reset` over timers that were taken out of the queue succeeds: no assertion fails and
  -- no deleted timer is touched. Each repeating timer is back in the set, once, for `now` plus its
  -- interval; each other timer is deleted; the rest of the set and all other timers are untouched,
  -- and the queue is valid again.
  pub reset_all_lem :
      (es : List Entry) (q : TimerQueue D)
      → Pending es q
      → (r : TimerQueue D) × (reset_all positive micros now es q ≡ ok r) × Reset es q r
  unfolding reset_all again
  reset_all_lem [] q p = (
    q,
    refl,
    record {
      valid = p.valid;
      perm = Perm.refl q.timers;
      outcome = tt;
      others = λ k a. refl;
      timerfd = refl;
    },
  )
  reset_all_lem (e ∷ es) q p =
      let (small, (t, at, same)) = p.waiting.0 in
      let (s, stepped, st) = reset_one_lem e q t p.valid at small p.separate.1 in
      let pending : Pending es s = record {
        valid = st.valid;
        waiting =
            subst (λ h. All (Live h) es) (sym st.heap)
              (update-Live q.timer_at e.timer (renewed t) es p.separate.0 p.waiting.1);
        separate = st.others es p.separate.0 p.separate.2;
      } in
      let (r, done, rs) = reset_all_lem es s pending in
      (r, rw (stepped, reset_all) done, Reset-cons e es q s r t at p st rs)
