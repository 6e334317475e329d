-- ===== src/Sync/Monitor.antt =====
-- A mutex with a condition variable as plain data, in which a signal wakes every sleeper: that the
-- assumptions on pthread can hold.
use mtnet.Prelude.{ℕ, ◌≡◌, refl, sym, ap, ◌∙◌, Bool, true, false, Option, none, some, inl, inr}
use mtnet.Prelude.Maps.{update, update_self, update_ne, ℕ-cases}
use mtnet.Sync.{Pthread, IsPosix}

pub record Monitor : Type 0 where
  pub owner : Option ℕ
  pub asleep : ℕ → Bool

abbrev pub locked : ℕ → Monitor → Monitor
locked t s = record s { owner = some t }

abbrev pub unlocked : Monitor → Monitor
unlocked s = record s { owner = none }

abbrev pub waiting : ℕ → Monitor → Monitor
waiting t s = record { owner = none; asleep = update s.asleep t true }

abbrev pub woken : ℕ → Monitor → Monitor
woken t s = record s { asleep = update s.asleep t false }

abbrev pub signalled : Monitor → Monitor
signalled s = record s { asleep = λ u. false }

abbrev pub LockStep : ℕ → Monitor → Monitor → Type 0
LockStep t s r = (s.owner ≡ none) × (r ≡ locked t s)

abbrev pub UnlockStep : ℕ → Monitor → Monitor → Type 0
UnlockStep t s r = (s.owner ≡ some t) × (r ≡ unlocked s)

abbrev pub WaitStep : ℕ → Monitor → Monitor → Type 0
WaitStep t s r = (s.owner ≡ some t) × (r ≡ waiting t s)

abbrev pub WakeStep : ℕ → Monitor → Monitor → Type 0
WakeStep t s r = r ≡ woken t s

abbrev pub SignalStep : Monitor → Monitor → Type 0
SignalStep s r = r ≡ signalled s

abbrev pub monitor : Pthread
monitor = record {
  State = Monitor;
  fresh = record { owner = none; asleep = λ u. false };
  owner = λ s. s.owner;
  asleep = λ s. s.asleep;
  MutexLock = LockStep;
  MutexUnlock = UnlockStep;
  CondWait = WaitStep;
  SpuriousWake = WakeStep;
  CondSignal = SignalStep;
  CondBroadcast = SignalStep;
}

woken-asleep : (f : ℕ → Bool) (t u : ℕ) → update f t false u ≡ true → f u ≡ true
woken-asleep f t u h = elim (ℕ-cases u t) [
  | inl e ↦ let no : false ≡ true = sym (ap (update f t false) e ∙ update_self f t false) ∙ h in cc
  | inr n ↦ sym (update_ne f t false u n) ∙ h
]

pub monitor-IsPosix : IsPosix monitor
monitor-IsPosix = record {
  fresh_owner = refl;
  fresh_asleep = λ u. refl;
  lock_free = λ t s r (e, q). e;
  lock_owner = λ t s r (e, q). ap owner_of q;
  lock_asleep = λ t s r (e, q) u. sleeps q u;
  locks = λ t s e. (locked t s, (e, refl));
  unlock_owner = λ t s r (e, q). ap owner_of q;
  unlock_asleep = λ t s r (e, q) u. sleeps q u;
  unlocks = λ t s e. (unlocked s, (e, refl));
  wait_owner = λ t s r (e, q). ap owner_of q;
  wait_asleep = λ t s r (e, q). sleeps q t ∙ update_self s.asleep t true;
  wait_others = λ t s r (e, q) u n. sleeps q u ∙ update_ne s.asleep t true u n;
  waits = λ t s e. (waiting t s, (e, refl));
  spurious_owner = λ t s r q. ap owner_of q;
  spurious_only = λ t s r q u h. woken-asleep s.asleep t u (sym (sleeps q u) ∙ h);
  signal_owner = λ s r q. ap owner_of q;
  signal_wakes = λ s r q t h. (t, h, sleeps q t);
  signal_only = λ s r q u h. absurd (no (sym (sleeps q u) ∙ h));
  signals = λ s. (signalled s, refl);
}
  where
    owner_of : Monitor → Option ℕ
    owner_of s = s.owner

    sleeps : {r s : Monitor} → r ≡ s → (u : ℕ) → r.asleep u ≡ s.asleep u
    sleeps q u = ap (λ (x : Monitor). x.asleep u) q

    no : false ≡ true → ⊥
    no h = cc
