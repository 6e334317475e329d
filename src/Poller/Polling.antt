-- ===== src/Poller/Polling.antt =====
-- `poll` of mtnet/Poller.cc, whatever poll(2) answers.
use mtnet.Prelude.{
  ℕ, zero, suc, ◌+◌, ◌≡◌, refl, sym, ap, ◌∙◌, inl, inr, List, [], ◌∷◌, true, false, ◌==◌, Option,
  none, some, length, get_elem?, ok, arith, Bool-cases,
}
use mtnet.Prelude.Int.{ℤ, pos}
use mtnet.Poller.Defs.{
  PollFd, Poller, Polled, is_negative, is_positive_short, store_revents, poll, poll_result,
}
use mtnet.Poller.Active.{
  active_entries, All2, AllTracked, Reported, Differs, Filled, Filled-nothing, nil_of_length,
  fill_lem,
}
use mtnet.Poller.Invariant.{IsConsistent, abs_fd, abs_fd_self}

-- What poll(2) promises: it returns the number of the entries with events, and an entry whose
-- descriptor is negative has none.
pub record Answers (r : Polled) (s : Poller) : Type 0 where
  pub counted : r.num_events ≡ pos (length (active_entries (store_revents s.pollfds r.revents)))
  pub ignored :
      (i : ℕ) (p : PollFd)
      → get_elem? (store_revents s.pollfds r.revents) i ≡ some p
      → is_negative p.fd ≡ true
      → is_positive_short p.revents ≡ false

-- Storing the events keeps every entry's descriptor.
store_revents-fd :
    (ps : List PollFd) (rs : List ℕ) (i : ℕ) (p : PollFd)
    → get_elem? (store_revents ps rs) i ≡ some p
    → (q : PollFd) × (get_elem? ps i ≡ some q) × (q.fd ≡ p.fd)
store_revents-fd [] rs i p h = cc
store_revents-fd (q ∷ ps) [] i p h = (p, h, refl)
store_revents-fd (q ∷ ps) (r ∷ rs) zero p h = (q, refl, ap fd_of h)
  where
    fd_of : Option PollFd → ℤ
    fd_of none = pos 0
    fd_of (some x) = x.fd
store_revents-fd (q ∷ ps) (r ∷ rs) (suc i) p h = store_revents-fd ps rs i p h

store_revents-kept :
    (ps : List PollFd) (rs : List ℕ) (i : ℕ) (q : PollFd)
    → get_elem? ps i ≡ some q
    → (p : PollFd) × (get_elem? (store_revents ps rs) i ≡ some p) × (p.fd ≡ q.fd)
store_revents-kept [] rs i q h = cc
store_revents-kept (p ∷ ps) [] i q h = (q, h, refl)
store_revents-kept (p ∷ ps) (r ∷ rs) zero q h = (record p { revents = r }, refl, ap fd_of h)
  where
    fd_of : Option PollFd → ℤ
    fd_of none = pos 0
    fd_of (some x) = x.fd
store_revents-kept (p ∷ ps) (r ∷ rs) (suc i) q h = store_revents-kept ps rs i q h

-- New events in the array, and noted in the channels, leave the poller consistent.
polled-IsConsistent :
    (s t : Poller) (rs : List ℕ)
    → IsConsistent s
    → t.channels ≡ s.channels
    → t.pollfds ≡ store_revents s.pollfds rs
    → ((d : ℕ)
        → ((t.channel_at d).fd ≡ (s.channel_at d).fd)
          × ((t.channel_at d).index ≡ (s.channel_at d).index))
    → IsConsistent t
polled-IsConsistent s t rs v map fds same = record {
  owner = λ i p h.
      let (q, here, e) =
        store_revents-fd s.pollfds rs i p (ap (λ l. get_elem? l i) (sym fds) ∙ h) in
      let (c, reg, at) = v.owner i q here in
      (
        c,
        ap (λ (f : ℤ → Option ℕ). f (abs_fd p.fd)) map
            ∙ ap (λ x. s.channels (abs_fd x)) (sym e)
            ∙ reg,
        (same c).1 ∙ at,
      );
  place = λ fd c h.
      let (i, q, nonneg, own, at, here, e) =
        v.place fd c (ap (λ (f : ℤ → Option ℕ). f fd) (sym map) ∙ h) in
      let (p, there, e') = store_revents-kept s.pollfds rs i q here in
      (
        i,
        p,
        nonneg,
        (same c).0 ∙ own,
        (same c).1 ∙ at,
        ap (λ l. get_elem? l i) fds ∙ there,
        ap abs_fd e' ∙ e,
      );
}

-- In a consistent poller every entry that poll(2) may report is tracked.
consistent-AllTracked :
    (u : Poller) (k : ℕ) (ps : List PollFd)
    → IsConsistent u
    → ((i : ℕ) (p : PollFd) → get_elem? ps i ≡ some p → get_elem? u.pollfds (k + i) ≡ some p)
    → ((i : ℕ) (p : PollFd)
        → get_elem? ps i ≡ some p
        → is_negative p.fd ≡ true
        → is_positive_short p.revents ≡ false)
    → AllTracked u k ps
consistent-AllTracked u k [] v inside quiet = tt
consistent-AllTracked u k (p ∷ ps) v inside quiet = (
  λ on.
      let nonneg : is_negative p.fd ≡ false = elim (Bool-cases (is_negative p.fd)) [
        | inl neg ↦ let off = quiet 0 p refl neg in let clash : true ≡ false = sym on ∙ off in cc
        | inr e ↦ e
      ] in
      let e : k + 0 ≡ k = omega arith in
      let (c, reg, at) = v.owner k p (ap (get_elem? u.pollfds) (sym e) ∙ inside 0 p refl) in
      let reg' : u.channels p.fd ≡ some c = ap u.channels (sym (abs_fd_self p.fd nonneg)) ∙ reg in
      let (j, q, nn, own, at', here, same) = v.place p.fd c reg' in (c, reg', own, at),
  consistent-AllTracked u (suc k) ps v
      (λ i q h.
        let e : suc k + i ≡ k + suc i = omega arith in
        ap (get_elem? u.pollfds) e ∙ inside (suc i) q h)
      (λ i q h. quiet (suc i) q h),
)

-- `c` is the channel of the entry `p`, and has its events noted.
abbrev pub Listed : Poller → Poller → PollFd → ℕ → Type 0
Listed s t p c =
    (s.channels p.fd ≡ some c) × (t.channel_at c ≡ record (s.channel_at c) { revents = p.revents })

Reported-Listed :
    (k : ℕ) (u t : Poller) (ps : List PollFd) (cs : List ℕ)
    → All2 (Reported k u t) ps cs
    → All2 (Listed u t) ps cs
Reported-Listed k u t [] [] h = tt
Reported-Listed k u t [] (c ∷ cs) h = absurd h
Reported-Listed k u t (p ∷ ps) [] h = absurd h
Reported-Listed k u t (p ∷ ps) (c ∷ cs) h =
    let (i, later, at, reg, noted) = h.0 in ((reg, noted), Reported-Listed k u t ps cs h.1)

-- The call of `fillActiveChannels`, or none if there are no events.
poll_result_lem :
    (n : ℕ) (u : Poller)
    → n ≡ length (active_entries u.pollfds)
    → AllTracked u 0 u.pollfds
    → (t : Poller) × (cs : List ℕ) × (poll_result (pos n) u ≡ ok (t, cs))
      × Filled 0 u u.pollfds t cs
unfolding poll_result
poll_result_lem n u e tracked = elim (Bool-cases (n == 0)) [
  | inl nothing ↦
      let none_left =
        nil_of_length (active_entries u.pollfds) (ap (λ m. m == 0) (sym e) ∙ nothing) in
      (u, [], rw nothing, Filled-nothing 0 u u.pollfds none_left)
  | inr more ↦
      let (t, cs, done, f) = fill_lem u.pollfds 0 u [] tracked in (t, cs, rw (more, e) done, f)
]

-- `poll` on a consistent poller, whatever events poll(2) answers with: no assertion fails and no null
-- channel is read. The active channels are exactly those of the entries with events, in the order of
-- the array, each with its entry's events noted; all other channels are unchanged, and so are the
-- registrations, and the poller stays consistent.
pub poll_lem :
    (r : Polled) (s : Poller)
    → IsConsistent s
    → Answers r s
    → let fds = store_revents s.pollfds r.revents in
      (t : Poller) × (active : List ℕ) × (poll r s ≡ ok (t, active))
      × IsConsistent t
      × (t.channels ≡ s.channels)
      × (t.pollfds ≡ fds)
      × All2 (Listed s t) (active_entries fds) active
      × ((d : ℕ) → Differs d active → t.channel_at d ≡ s.channel_at d)
unfolding poll
poll_lem r s v a =
    let fds = store_revents s.pollfds r.revents in
    let u = record s { pollfds = fds } in
    let valid = polled-IsConsistent s u r.revents v refl refl (λ d. (refl, refl)) in
    let inside = λ (i : ℕ) (p : PollFd) (h : get_elem? fds i ≡ some p).
      let e : 0 + i ≡ i = omega arith in ap (get_elem? fds) e ∙ h in
    let tracked = consistent-AllTracked u 0 fds valid inside a.ignored in
    let (t, cs, done, f) = poll_result_lem (length (active_entries fds)) u refl tracked in
    (
      t,
      cs,
      rw a.counted done,
      polled-IsConsistent s t r.revents v f.channels f.pollfds f.same,
      f.channels,
      f.pollfds,
      Reported-Listed 0 u t (active_entries fds) cs f.reported,
      f.unlisted,
    )
