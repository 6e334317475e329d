-- ===== src/Poller/Samples.antt =====
-- Small pollers for runs.
use mtnet.Prelude.{
  some_injective, ℕ, ◌≡◌, refl, ap, ◌∙◌, sym, subst, inl, inr, [], ◌∷◌, none, some, get_elem?, zero,
  suc,
}
use mtnet.Prelude.Int.{ℤ, pos, negsuc}
use mtnet.Prelude.Maps.{update, update_ℤ, update_ℤ_ne, ℤ-cases}
use mtnet.Channel
use mtnet.Channel.{Channel, enable_reading, enable_writing, disable_all, change}
use mtnet.Poller.Defs.{PollFd, Poller}
use mtnet.Poller.Invariant.{IsConsistent, Owned, Placed, abs_fd}

-- Channels 0 and 1 on descriptors 3 and 4.
abbrev pub heap : ℕ → Channel
unfolding Channel.init
heap zero = Channel.init 0 (pos 3)
heap (suc n) = Channel.init 0 (pos 4)

-- Channel 0 on descriptor 3, and nothing else: reading, or ignored after `disableAll`.
abbrev pub reader : Channel
unfolding Channel.init
reader = record (Channel.init 0 (pos 3)) { events = 3; index = pos 0 }

abbrev pub entry : PollFd
entry = record { fd = pos 3; events = 3; revents = 0 }

abbrev pub ignored_entry : PollFd
ignored_entry = record { fd = negsuc 3; events = 0; revents = 0 }

abbrev pub only : PollFd → Poller
only pfd = record {
  pollfds = pfd ∷ [];
  channels = update_ℤ (λ fd. none) (pos 3) (some 0);
  channel_at = update heap 0 reader;
}

abbrev pub one : Poller
one = only entry

abbrev pub silenced : Poller
silenced = only ignored_entry

pub only-IsConsistent : (pfd : PollFd) → abs_fd pfd.fd ≡ pos 3 → IsConsistent (only pfd)
unfolding Channel.init
only-IsConsistent e same = record { owner = owner; place = place }
  where
    owner : (i : ℕ) (pfd : PollFd) → get_elem? (e ∷ []) i ≡ some pfd → Owned (only e) i pfd
    owner zero pfd h = subst (Owned (only e) 0) (some_injective h) (0, rw same, refl)
    owner (suc i) pfd h = cc

    place : (fd : ℤ) (c : ℕ) → (only e).channels fd ≡ some c → Placed (only e) fd c
    place fd c h = elim (ℤ-cases fd (pos 3)) [
      | inl at_3 ↦
          subst (λ f. Placed (only e) f c) (sym at_3)
            (subst (Placed (only e) (pos 3))
              (some_injective {a = 0} {b = c} (ap (only e).channels (sym at_3) ∙ h))
              (0, e, refl, refl, refl, refl, same))
      | inr ne ↦
          let bad : none ≡ some c = sym (update_ℤ_ne (λ _. none) (pos 3) (some 0) fd ne) ∙ h in cc
    ]

pub one-IsConsistent : IsConsistent one
one-IsConsistent = only-IsConsistent entry refl

pub silenced-IsConsistent : IsConsistent silenced
silenced-IsConsistent = only-IsConsistent ignored_entry refl
