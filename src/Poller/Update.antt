-- ===== src/Poller/Update.antt =====
-- `updateChannel` of mtnet/Poller.cc keeps the poller consistent, and stops at no assertion.
use mtnet.Prelude.{
  some_injective, none-ne-some, ℕ, ◌-◌, ◌<◌, ◌≡◌, ◌≢◌, refl, sym, ap, ◌∙◌, inl, inr, [], ◌∷◌, ◌++◌,
  true, false, none, some, length, get_elem?, set, arith, ok, length-append, length-set, lt→ltb,
  get_elem?-append_left, get_elem?-append_last, get_elem?_bound, get_elem?-some, get_elem?-set_self,
  get_elem?-set_ne, if◌then◌else◌, Bool-cases, ==_iff, ◌||◌,
}
use mtnet.Prelude.Int.{ℤ, pos, negsuc, eqb_ℤ}
use mtnet.Prelude.Maps.{
  update, update_self, update_ne, update_ℤ, update_ℤ_self, update_ℤ_ne, ℕ-cases, ℤ-cases,
}
use mtnet.Channel.{Channel, is_none_event}
use mtnet.Poller.Defs.{
  PollFd, Poller, flip, is_negative, to_short, add_channel, modify_channel, update_channel,
}
use mtnet.Poller.Invariant.{IsConsistent, Owned, Placed, abs_fd, abs_fd-flip, abs_fd_self, owner-at}

module _ (s : Poller) (c : ℕ) where
  abbrev entry : PollFd
  entry = record {
    fd = (s.channel_at c).fd;
    events = to_short (s.channel_at c).events;
    revents = 0;
  }

  abbrev pub added : Poller
  added = record {
    pollfds = s.pollfds ++ entry ∷ [];
    channels = update_ℤ s.channels (s.channel_at c).fd (some c);
    channel_at = update s.channel_at c (record (s.channel_at c) { index = pos (length s.pollfds) });
  }

  add_channel-added : s.channels (s.channel_at c).fd ≡ none → add_channel s c ≡ ok added
  unfolding add_channel
  add_channel-added h =
      let e : length (s.pollfds ++ entry ∷ []) - 1 ≡ length s.pollfds =
        omega (arith, length-append s.pollfds (entry ∷ [])) in
      rw (h, e)

module _ {s : Poller} (v : IsConsistent s) (c : ℕ) (new : is_negative (s.channel_at c).index ≡ true)
    (nonneg : is_negative (s.channel_at c).fd ≡ false)
    (absent : s.channels (s.channel_at c).fd ≡ none) where
  -- A registered channel is not the new one, since its index is not negative.
  registered-ne : (d : ℕ) (i : ℕ) → (s.channel_at d).index ≡ pos i → d ≢ c
  registered-ne d i at e =
      let bad : false ≡ true =
        sym (ap is_negative at) ∙ ap (λ k. is_negative (s.channel_at k).index) e ∙ new in
      cc

  added-owner :
      (i : ℕ) (pfd : PollFd) → get_elem? (added s c).pollfds i ≡ some pfd → Owned (added s c) i pfd
  added-owner i pfd h = elim (ℕ-cases i (length s.pollfds)) [
    | inl last ↦
        let e : entry s c ≡ pfd =
          some_injective
            (sym (get_elem?-append_last s.pollfds (entry s c)) ∙ ap (get_elem? _) (sym last) ∙ h) in
        (
          c,
          ap (added s c).channels (ap (λ (p : PollFd). abs_fd p.fd) (sym e) ∙ abs_fd_self _ nonneg)
              ∙ update_ℤ_self s.channels (s.channel_at c).fd (some c),
          ap (λ (x : Channel). x.index) (update_self s.channel_at c _) ∙ ap pos (sym last),
        )
    | inr other ↦
        let bound : i < length s.pollfds =
          omega (arith, get_elem?_bound _ i h, length-append s.pollfds (entry s c ∷ [])) in
        let (d, reg, at) =
          v.owner i pfd (sym (get_elem?-append_left s.pollfds (entry s c ∷ []) i bound) ∙ h) in
        (
          d,
          update_ℤ_ne s.channels _ (some c) (abs_fd pfd.fd)
                (λ e. none-ne-some (ap s.channels e ∙ absent) reg)
              ∙ reg,
          ap (λ (x : Channel). x.index) (update_ne s.channel_at c _ d (registered-ne d i at)) ∙ at,
        )
  ]

  added-place : (fd : ℤ) (d : ℕ) → (added s c).channels fd ≡ some d → Placed (added s c) fd d
  added-place fd d h = elim (ℤ-cases fd (s.channel_at c).fd) [
    | inl e ↦
        let same : c ≡ d = some_injective (
          sym (update_ℤ_self s.channels (s.channel_at c).fd (some c))
          ∙ ap (added s c).channels (sym e)
          ∙ h) in
        let new_one = ap (added s c).channel_at (sym same) ∙ update_self s.channel_at c _ in
        (
          length s.pollfds,
          entry s c,
          ap is_negative e ∙ nonneg,
          ap (λ (x : Channel). x.fd) new_one ∙ sym e,
          ap (λ (x : Channel). x.index) new_one,
          get_elem?-append_last s.pollfds (entry s c),
          abs_fd_self _ nonneg ∙ sym e,
        )
    | inr ne ↦
        let (i, pfd, nonneg', own, at, here, same) =
          v.place fd d (sym (update_ℤ_ne s.channels _ (some c) fd ne) ∙ h) in
        let old =
          update_ne s.channel_at c (record (s.channel_at c) { index = pos (length s.pollfds) }) d
            (registered-ne d i at) in
        (
          i,
          pfd,
          nonneg',
          ap (λ (x : Channel). x.fd) old ∙ own,
          ap (λ (x : Channel). x.index) old ∙ at,
          get_elem?-append_left s.pollfds (entry s c ∷ []) i (get_elem?_bound _ i here) ∙ here,
          same,
        )
  ]

  -- A new channel on a descriptor that no registered channel has is added at the end of the array.
  pub update_channel-add :
      (t : Poller) × (update_channel s c ≡ ok t) × IsConsistent t × (t ≡ added s c)
  unfolding update_channel
  update_channel-add = (
    added s c,
    rw new (add_channel-added s c absent),
    record { owner = added-owner; place = added-place },
    refl,
  )

-- What `updateChannel` writes into the entry of a registered channel.
abbrev pub modified : Channel → PollFd → PollFd
modified ch pfd = record {
  fd = if is_none_event ch then flip ch.fd else pfd.fd;
  events = to_short ch.events;
  revents = 0;
}

module _ {s : Poller} (v : IsConsistent s) (c i : ℕ) (pfd : PollFd)
    (reg : s.channels (s.channel_at c).fd ≡ some c) (at : (s.channel_at c).index ≡ pos i)
    (here : get_elem? s.pollfds i ≡ some pfd) where
  abbrev rewritten : Poller
  rewritten = record s { pollfds = set s.pollfds i (modified (s.channel_at c) pfd) }

  fd_test : (eqb_ℤ pfd.fd (s.channel_at c).fd || eqb_ℤ pfd.fd (flip (s.channel_at c).fd)) ≡ true
  fd_test =
      let nonneg = (v.place (s.channel_at c).fd c reg).2 in
      fd_form pfd.fd (s.channel_at c).fd nonneg (owner-at v _ c i pfd reg at here)
    where
      fd_form :
          (x y : ℤ) → is_negative y ≡ false → abs_fd x ≡ y → (eqb_ℤ x y || eqb_ℤ x (flip y)) ≡ true
      fd_form (pos x) (pos y) n e = ground arith
      fd_form (negsuc x) (pos y) n e = ground arith
      fd_form x (negsuc y) n e = cc

  modify_channel-rewritten : modify_channel s c ≡ ok rewritten
  unfolding modify_channel
  modify_channel-rewritten = rw (
    reg,
    (==_iff c c).1 refl,
    at,
    lt→ltb i (length s.pollfds) (get_elem?_bound _ i here),
    here,
    fd_test,
  )

  modified-fd : abs_fd (modified (s.channel_at c) pfd).fd ≡ abs_fd pfd.fd
  modified-fd = elim (Bool-cases (is_none_event (s.channel_at c))) [
    | inl quiet ↦
        let nonneg = (v.place (s.channel_at c).fd c reg).2 in
        rw quiet (
          abs_fd-flip (s.channel_at c).fd
          ∙ abs_fd_self _ nonneg
          ∙ sym (owner-at v _ c i pfd reg at here))
    | inr busy ↦ rw busy
  ]

  rewritten-at :
      (j : ℕ) (q : PollFd)
      → get_elem? s.pollfds j ≡ some q
      → (p : PollFd) × (get_elem? rewritten.pollfds j ≡ some p) × (abs_fd p.fd ≡ abs_fd q.fd)
  rewritten-at j q h = elim (ℕ-cases i j) [
    | inl e ↦ (
      modified (s.channel_at c) pfd,
      ap (get_elem? rewritten.pollfds) (sym e)
          ∙ get_elem?-set_self s.pollfds i _ (get_elem?_bound _ i here),
      modified-fd
          ∙ ap (λ (p : PollFd). abs_fd p.fd)
              (some_injective (sym here ∙ ap (get_elem? s.pollfds) e ∙ h)),
    )
    | inr ne ↦ (q, get_elem?-set_ne s.pollfds i j _ ne ∙ h, refl)
  ]

  rewritten-owner :
      (j : ℕ) (p : PollFd) → get_elem? rewritten.pollfds j ≡ some p → Owned rewritten j p
  rewritten-owner j p h =
      let bound : j < length s.pollfds =
        omega
          (arith, get_elem?_bound _ j h, length-set s.pollfds i (modified (s.channel_at c) pfd)) in
      let (q, old) = get_elem?-some s.pollfds j bound in
      let (p', new, same) = rewritten-at j q old in
      let (d, reg', at') = v.owner j q old in
      let e : p ≡ p' = some_injective (sym h ∙ new) in
      (d, ap (λ (x : PollFd). s.channels (abs_fd x.fd)) e ∙ ap s.channels same ∙ reg', at')

  rewritten-IsConsistent : IsConsistent rewritten
  rewritten-IsConsistent = record {
    owner = rewritten-owner;
    place = λ fd d h.
        let (j, q, nonneg, own, at', old, same) = v.place fd d h in
        let (p, new, same') = rewritten-at j q old in (j, p, nonneg, own, at', new, same' ∙ same);
  }

  pub update_channel-modify :
      (t : Poller) × (update_channel s c ≡ ok t)
      × IsConsistent t
      × (t.channels ≡ s.channels)
      × (t.channel_at ≡ s.channel_at)
      × (get_elem? t.pollfds i ≡ some (modified (s.channel_at c) pfd))
  unfolding update_channel
  update_channel-modify = (
    rewritten,
    rw at modify_channel-rewritten,
    rewritten-IsConsistent,
    refl,
    refl,
    get_elem?-set_self s.pollfds i _ (get_elem?_bound _ i here),
  )
