-- ===== src/EventLoopThread/Locked/CallerMoves.antt =====
-- The moves of `startLoop` of mtnet/EventLoopThread.cc keep the invariant.
use mtnet.Prelude.{
  ℕ, ◌≡◌, refl, sym, ap, ◌∙◌, Bool, true, false, not, none, some, ok, inl, inr, arith,
}
use mtnet.Prelude.Maps.{ℕ-cases}
use mtnet.EventLoopThread.{EventLoopThread, begin_start_loop, is_null}
use mtnet.Sync.{Pthread, IsPosix, woken}
use mtnet.EventLoopThread.Locked.Defs.{
  Caller, Worker, building, acquiring, storing, notifying, releasing, looping, CallerMove, starts,
  locks, waits, wakes, finds, leaves, returns,
}
use mtnet.EventLoopThread.Locked.Invariant.{
  is_inside_worker, owner_of, waits_now, will_notify, loop_of, Inv, true-false,
}

none-worker : (b : Bool) → none ≡ owner_of false b → b ≡ false
none-worker true h = cc
none-worker false h = refl

outside : (b : Bool) → b ≡ false → none ≡ owner_of false b
outside b h = rw h refl

null-will_notify :
    (address : ℕ) (k : Worker) → is_null (loop_of address k) ≡ true → will_notify k ≡ true
null-will_notify address building h = refl
null-will_notify address acquiring h = refl
null-will_notify address storing h = refl
null-will_notify address notifying h = refl
null-will_notify address releasing h = cc
null-will_notify address looping h = cc

not_null-loop_of :
    (address : ℕ) (k : Worker)
    → is_null (loop_of address k) ≡ false
    → loop_of address k ≡ some address
not_null-loop_of address building h = cc
not_null-loop_of address acquiring h = cc
not_null-loop_of address storing h = cc
not_null-loop_of address notifying h = refl
not_null-loop_of address releasing h = refl
not_null-loop_of address looping h = refl

begin_start_loop-same :
    (t u : EventLoopThread) → begin_start_loop t ≡ ok u → (u.loop ≡ t.loop) × (u.started ≡ true)
unfolding begin_start_loop
begin_start_loop-same t u h = (ground arith, ground arith)

module _ {p : Pthread} (law : IsPosix p) {address : ℕ} where
  -- No thread sleeps while the caller is not in `wait`.
  awake :
      {s : p.State} {t : EventLoopThread} {c : Caller} {k : Worker}
      → Inv p address s t c k
      → waits_now c ≡ false
      → (u : ℕ) → p.asleep s u ≡ true
      → ⊥
  awake i h u a = true-false (i.sleepers u a).1 h

  pub CallerMove-Inv :
      {s r : p.State} {t u : EventLoopThread} {c d : Caller} {k : Worker}
      → CallerMove p address s t c r u d
      → Inv p address s t c k
      → Inv p address r u d k
  CallerMove-Inv (starts {s} {t} {u} e) i =
      let same = begin_start_loop-same t u e in
      record {
        owned = i.owned;
        apart = refl;
        sleepers = λ x a. absurd (awake i refl x a);
        stored = same.0 ∙ i.stored;
        heard = i.heard;
        found = λ h. absurd (true-false h refl);
        answer = tt;
        started = ap not (sym same.1);
        born = λ h. same.1;
      }
  CallerMove-Inv {k = k} (locks {s} {r} {t} e) i =
      let free = none-worker (is_inside_worker k) (sym (law.lock_free 0 s r e) ∙ i.owned) in
      record {
        owned = law.lock_owner 0 s r e;
        apart = free;
        sleepers = λ x a. absurd (awake i refl x (sym (law.lock_asleep 0 s r e x) ∙ a));
        stored = i.stored;
        heard = λ a. i.heard (sym (law.lock_asleep 0 s r e 0) ∙ a);
        found = λ h. absurd (true-false h refl);
        answer = tt;
        started = i.started;
        born = i.born;
      }
  CallerMove-Inv {k = k} (waits {s} {r} {t} null e) i = record {
    owned = law.wait_owner 0 s r e ∙ outside (is_inside_worker k) i.apart;
    apart = refl;
    sleepers = λ x a. elim (ℕ-cases x 0) [
      | inl z ↦ (z, refl)
      | inr n ↦ absurd (awake i refl x (sym (law.wait_others 0 s r e x n) ∙ a))
    ];
    stored = i.stored;
    heard = λ a. null-will_notify address k (ap is_null (sym i.stored) ∙ null);
    found = λ h. absurd (true-false h refl);
    answer = tt;
    started = i.started;
    born = i.born;
  }
  CallerMove-Inv {k = k} (wakes {s} {r} {t} (woken up e)) i =
      let free = none-worker (is_inside_worker k) (sym (law.lock_free 0 s r e) ∙ i.owned) in
      let nobody : (x : ℕ) → p.asleep r x ≡ true → ⊥ = λ x a.
        let b = sym (law.lock_asleep 0 s r e x) ∙ a in
        true-false (ap (p.asleep s) (sym (i.sleepers x b).0) ∙ b) up in
      record {
        owned = law.lock_owner 0 s r e;
        apart = free;
        sleepers = λ x a. absurd (nobody x a);
        stored = i.stored;
        heard = λ a. absurd (nobody 0 a);
        found = λ h. absurd (true-false h refl);
        answer = tt;
        started = i.started;
        born = i.born;
      }
  CallerMove-Inv {k = k} (finds set) i = record {
    owned = i.owned;
    apart = i.apart;
    sleepers = λ x a. absurd (awake i refl x a);
    stored = i.stored;
    heard = i.heard;
    found = λ h. not_null-loop_of address k (ap is_null (sym i.stored) ∙ set);
    answer = tt;
    started = i.started;
    born = i.born;
  }
  CallerMove-Inv {k = k} (leaves {s} {r} {t} e) i = record {
    owned = law.unlock_owner 0 s r e ∙ outside (is_inside_worker k) i.apart;
    apart = refl;
    sleepers = λ x a. absurd (awake i refl x (sym (law.unlock_asleep 0 s r e x) ∙ a));
    stored = i.stored;
    heard = λ a. i.heard (sym (law.unlock_asleep 0 s r e 0) ∙ a);
    found = λ h. i.found refl;
    answer = tt;
    started = i.started;
    born = i.born;
  }
  CallerMove-Inv returns i = record {
    owned = i.owned;
    apart = refl;
    sleepers = λ x a. absurd (awake i refl x a);
    stored = i.stored;
    heard = i.heard;
    found = λ h. absurd (true-false h refl);
    answer = i.stored ∙ i.found refl;
    started = i.started;
    born = i.born;
  }
