-- ===== src/Poller/Invariant.antt =====
-- The map, the array and the channels' indices of a poller agree.
use mtnet.Prelude.{ℕ, ◌≡◌, ◌≢◌, refl, sym, ap, ◌∙◌, inl, inr, false, Option, none, some, get_elem?}
use mtnet.Prelude.Int.{ℤ, pos, negsuc}
use mtnet.Prelude.Maps.{update, update_self, update_ne, ℕ-cases}
use mtnet.Channel.{Channel}
use mtnet.Poller.Defs.{PollFd, Poller, init, flip, is_negative}

-- The descriptor of an entry, ignored or not.
abbrev pub abs_fd : ℤ → ℤ
abs_fd (pos n) = pos n
abs_fd (negsuc n) = pos n

-- The channel of an entry, which knows its place.
abbrev pub Owned : Poller → ℕ → PollFd → Type 0
Owned s i pfd = (c : ℕ) × (s.channels (abs_fd pfd.fd) ≡ some c) × ((s.channel_at c).index ≡ pos i)

-- The entry of a channel on a descriptor.
abbrev pub Placed : Poller → ℤ → ℕ → Type 0
Placed s fd c =
    (i : ℕ) × (pfd : PollFd) × (is_negative fd ≡ false)
    × ((s.channel_at c).fd ≡ fd)
    × ((s.channel_at c).index ≡ pos i)
    × (get_elem? s.pollfds i ≡ some pfd)
    × (abs_fd pfd.fd ≡ fd)

-- Each entry belongs to a registered channel that knows its place, and each registered channel has
-- a descriptor that is not negative, and an entry for it at its index.
pub record IsConsistent (s : Poller) : Type 0 where
  pub owner : (i : ℕ) (pfd : PollFd) → get_elem? s.pollfds i ≡ some pfd → Owned s i pfd
  pub place : (fd : ℤ) (c : ℕ) → s.channels fd ≡ some c → Placed s fd c

pub init-IsConsistent : (heap : ℕ → Channel) → IsConsistent (init heap)
unfolding init
init-IsConsistent heap = record { owner = λ i pfd h. cc; place = λ fd c h. cc }

pub abs_fd-flip : (fd : ℤ) → abs_fd (flip fd) ≡ abs_fd fd
abs_fd-flip (pos n) = refl
abs_fd-flip (negsuc n) = refl

pub abs_fd_self : (fd : ℤ) → is_negative fd ≡ false → abs_fd fd ≡ fd
abs_fd_self (pos n) h = refl
abs_fd_self (negsuc n) h = cc

-- The channel whose index is an entry's is the one registered under its descriptor.
pub owner-at :
    {s : Poller} (v : IsConsistent s) (fd : ℤ) (c i : ℕ) (pfd : PollFd)
    → s.channels fd ≡ some c
    → (s.channel_at c).index ≡ pos i
    → get_elem? s.pollfds i ≡ some pfd
    → abs_fd pfd.fd ≡ fd
owner-at v fd c i pfd reg at here =
    let (j, q, nonneg, own, at', there, same) = v.place fd c reg in
    let e : i ≡ j = cc in
    let e' : some pfd ≡ some q = sym here ∙ ap (get_elem? _) e ∙ there in
    ap (λ o. abs_fd (from o)) e' ∙ same
  where
    from : Option PollFd → ℤ
    from none = pos 0
    from (some p) = p.fd

-- Changing what a channel wants, or what happened on it, leaves the poller consistent.
pub channel-IsConsistent :
    {s : Poller} (c : ℕ) (d : Channel)
    → d.fd ≡ (s.channel_at c).fd
    → d.index ≡ (s.channel_at c).index
    → IsConsistent s
    → IsConsistent (record s { channel_at = update s.channel_at c d })
channel-IsConsistent {s} c d efd eindex v = record {
  owner = λ i pfd h. let (k, reg, at) = v.owner i pfd h in (k, reg, index k ∙ at);
  place = λ fd k h.
      let (i, pfd, nonneg, own, at, here, same) = v.place fd k h in
      (i, pfd, nonneg, fd_same k ∙ own, index k ∙ at, here, same);
}
  where
    index : (k : ℕ) → (update s.channel_at c d k).index ≡ (s.channel_at k).index
    index k = elim (ℕ-cases k c) [
      | inl e ↦ rw e (ap (λ (x : Channel). x.index) (update_self s.channel_at c d) ∙ eindex)
      | inr e ↦ ap (λ (x : Channel). x.index) (update_ne s.channel_at c d k e)
    ]

    fd_same : (k : ℕ) → (update s.channel_at c d k).fd ≡ (s.channel_at k).fd
    fd_same k = elim (ℕ-cases k c) [
      | inl e ↦ rw e (ap (λ (x : Channel). x.fd) (update_self s.channel_at c d) ∙ efd)
      | inr e ↦ ap (λ (x : Channel). x.fd) (update_ne s.channel_at c d k e)
    ]

-- Memory in which no registered channel stands may change.
pub fresh-IsConsistent :
    {s : Poller} (c : ℕ) (d : Channel)
    → ((fd : ℤ) → s.channels fd ≢ some c)
    → IsConsistent s
    → IsConsistent (record s { channel_at = update s.channel_at c d })
fresh-IsConsistent {s} c d fresh v = record {
  owner = λ i pfd h.
      let (k, reg, at) = v.owner i pfd h in
      (k, reg, ap (λ (x : Channel). x.index) (same _ k reg) ∙ at);
  place = λ fd k h.
      let (i, pfd, nonneg, own, at, here, form) = v.place fd k h in
      (
        i,
        pfd,
        nonneg,
        ap (λ (x : Channel). x.fd) (same fd k h) ∙ own,
        ap (λ (x : Channel). x.index) (same fd k h) ∙ at,
        here,
        form,
      );
}
  where
    same : (fd : ℤ) (k : ℕ) → s.channels fd ≡ some k → update s.channel_at c d k ≡ s.channel_at k
    same fd k reg = update_ne s.channel_at c d k (λ e. fresh fd (reg ∙ ap some e))
