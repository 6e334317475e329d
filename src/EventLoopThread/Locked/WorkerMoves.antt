-- ===== src/EventLoopThread/Locked/WorkerMoves.antt =====
-- The moves of `threadFunc` of mtnet/EventLoopThread.cc, and wake-ups without a signal, keep the
-- invariant.
use mtnet.Prelude.{ℕ, ◌≡◌, refl, sym, ap, ◌∙◌, Bool, true, false, ◌&&◌, none}
use mtnet.EventLoopThread.{EventLoopThread, init, publish}
use mtnet.Sync.{Pthread, IsPosix}
use mtnet.EventLoopThread.Locked.Defs.{
  Caller, before, Worker, building, WorkerMove, builds, acquires, stores, notifies, releases,
}
use mtnet.EventLoopThread.Locked.Invariant.{is_inside, owner_of, Inv, true-false}

none-caller : (b : Bool) → none ≡ owner_of b false → b ≡ false
none-caller true h = cc
none-caller false h = refl

outside_caller : (b : Bool) → b ≡ false → none ≡ owner_of b false
outside_caller b h = rw h refl

and_false-left : (b : Bool) → (b && false) ≡ false
and_false-left true = refl
and_false-left false = refl

and_true-false : (b : Bool) → (b && true) ≡ false → b ≡ false
and_true-false true h = cc
and_true-false false h = refl

module _ {p : Pthread} (law : IsPosix p) {address : ℕ} where
  pub WorkerMove-Inv :
      {s r : p.State} {t u : EventLoopThread} {c : Caller} {k m : Worker}
      → WorkerMove p address s t k r u m
      → Inv p address s t c k
      → Inv p address r u c m
  unfolding publish
  WorkerMove-Inv {c = c} (builds up) i = record {
    owned = i.owned;
    apart = i.apart;
    sleepers = i.sleepers;
    stored = i.stored;
    heard = λ a. refl;
    found = i.found;
    answer = i.answer;
    started = i.started;
    born = λ h. up;
  }
  WorkerMove-Inv {c = c} (acquires {s} {r} {t} e) i =
      let free = none-caller (is_inside c) (sym (law.lock_free 1 s r e) ∙ i.owned) in
      record {
        owned = law.lock_owner 1 s r e ∙ rw free refl;
        apart = rw free refl;
        sleepers = λ x a. i.sleepers x (sym (law.lock_asleep 1 s r e x) ∙ a);
        stored = i.stored;
        heard = λ a. refl;
        found = i.found;
        answer = i.answer;
        started = i.started;
        born = λ h. i.born refl;
      }
  WorkerMove-Inv {c = c} stores i = record {
    owned = i.owned;
    apart = i.apart;
    sleepers = i.sleepers;
    stored = refl;
    heard = λ a. refl;
    found = λ h. refl;
    answer = i.answer;
    started = i.started;
    born = λ h. i.born refl;
  }
  WorkerMove-Inv {c = c} (notifies {s} {r} {t} e) i = record {
    owned = law.signal_owner s r e ∙ i.owned;
    apart = i.apart;
    sleepers = λ x a. i.sleepers x (law.signal_only s r e x a);
    stored = i.stored;
    heard = λ a.
        let (x, slept, up) = law.signal_wakes s r e 0 (law.signal_only s r e 0 a) in
        absurd (true-false a (ap (p.asleep r) (sym (i.sleepers x slept).0) ∙ up));
    found = λ h. refl;
    answer = i.answer;
    started = i.started;
    born = λ h. i.born refl;
  }
  WorkerMove-Inv {c = c} (releases {s} {r} {t} e) i =
      let out = and_true-false (is_inside c) i.apart in
      record {
        owned = law.unlock_owner 1 s r e ∙ outside_caller (is_inside c) out;
        apart = and_false-left (is_inside c);
        sleepers = λ x a. i.sleepers x (sym (law.unlock_asleep 1 s r e x) ∙ a);
        stored = i.stored;
        heard = λ a. i.heard (sym (law.unlock_asleep 1 s r e 0) ∙ a);
        found = λ h. refl;
        answer = i.answer;
        started = i.started;
        born = λ h. i.born refl;
      }

  pub spurious-Inv :
      {s r : p.State} {t : EventLoopThread} {c : Caller} {k : Worker}
      → p.SpuriousWake 0 s r
      → Inv p address s t c k
      → Inv p address r t c k
  spurious-Inv {s} {r} e i = record {
    owned = law.spurious_owner 0 s r e ∙ i.owned;
    apart = i.apart;
    sleepers = λ x a. i.sleepers x (law.spurious_only 0 s r e x a);
    stored = i.stored;
    heard = λ a. i.heard (law.spurious_only 0 s r e 0 a);
    found = i.found;
    answer = i.answer;
    started = i.started;
    born = i.born;
  }

  pub start-Inv : Inv p address p.fresh init before building
  unfolding init
  start-Inv = record {
    owned = law.fresh_owner;
    apart = refl;
    sleepers = λ x a. absurd (true-false a (law.fresh_asleep x));
    stored = refl;
    heard = λ a. refl;
    found = λ h. absurd (true-false h refl);
    answer = tt;
    started = refl;
    born = λ h. absurd (true-false refl h);
  }
