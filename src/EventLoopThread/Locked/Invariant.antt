-- ===== src/EventLoopThread/Locked/Invariant.antt =====
-- What holds at every step of `startLoop` and `threadFunc` of mtnet/EventLoopThread.cc.
use mtnet.Prelude.{
  ℕ, ◌≡◌, sym, ◌∙◌, Bool, true, false, not, ◌&&◌, if◌then◌else◌, Option, none, some,
}
use mtnet.EventLoopThread.{EventLoopThread}
use mtnet.Sync.{Pthread}
use mtnet.EventLoopThread.Locked.Defs.{
  Caller, before, testing, waiting, leaving, left, returned, Worker, building, storing, notifying,
  releasing, looping,
}

abbrev pub is_inside : Caller → Bool
is_inside testing = true
is_inside leaving = true
is_inside _ = false

abbrev pub is_inside_worker : Worker → Bool
is_inside_worker storing = true
is_inside_worker notifying = true
is_inside_worker releasing = true
is_inside_worker _ = false

abbrev pub owner_of : Bool → Bool → Option ℕ
owner_of caller worker = if caller then some 0 else if worker then some 1 else none

abbrev pub waits_now : Caller → Bool
waits_now waiting = true
waits_now _ = false

abbrev pub has_found : Caller → Bool
has_found leaving = true
has_found left = true
has_found _ = false

abbrev pub is_before : Caller → Bool
is_before before = true
is_before _ = false

-- `notify` is still to come.
abbrev pub will_notify : Worker → Bool
will_notify releasing = false
will_notify looping = false
will_notify _ = true

abbrev pub is_building : Worker → Bool
is_building building = true
is_building _ = false

abbrev pub loop_of : ℕ → Worker → Option ℕ
loop_of address notifying = some address
loop_of address releasing = some address
loop_of address looping = some address
loop_of address _ = none

abbrev pub Answer : ℕ → Caller → Type 0
Answer address (returned o) = o ≡ some address
Answer address _ = Unit

-- The mutex is owned by the one thread that is inside; only a caller in `wait` sleeps, and then
-- `notify` is still to come.
pub record Inv (p : Pthread) (address : ℕ) (s : p.State) (t : EventLoopThread) (c : Caller)
    (k : Worker) : Type 0 where
  pub owned : p.owner s ≡ owner_of (is_inside c) (is_inside_worker k)
  pub apart : (is_inside c && is_inside_worker k) ≡ false
  pub sleepers : (u : ℕ) → p.asleep s u ≡ true → (u ≡ 0) × (waits_now c ≡ true)
  pub stored : t.loop ≡ loop_of address k
  pub heard : p.asleep s 0 ≡ true → will_notify k ≡ true
  pub found : has_found c ≡ true → loop_of address k ≡ some address
  pub answer : Answer address c
  pub started : is_before c ≡ not t.started
  pub born : is_building k ≡ false → t.started ≡ true

pub true-false : {b : Bool} → b ≡ true → b ≡ false → ⊥
true-false p q = let r : true ≡ false = sym p ∙ q in cc
