-- ===== src/EventLoop/Iterate.antt =====
-- One round of `loop` of mtnet/EventLoop.cc up to `doPendingFunctors`: the poll, and `handelEvent`
-- of each channel that it found active, with callbacks that are noted and leave the channels
-- alone.
use mtnet.Prelude.{
  ℕ, ◌≡◌, refl, sym, ap, ap₂, ◌∙◌, subst, Bool, true, false, not, ◌&&◌, List, [], ◌∷◌, ◌++◌, Option,
  none, some, append-nil, append_assoc, inl, inr, Result, ok, ◌>>=◌,
}
use mtnet.Prelude.Int.{ℤ}
use mtnet.Prelude.Maps.{update, update_self, update_ne, ℕ-cases}
use mtnet.Channel.{Channel, any_bit, handel_event, run_if}
use mtnet.Channel.Dispatch.{Called, called, called_read, call_if, calls_for}
use mtnet.Poller.Defs.{PollFd, Poller, Polled, store_revents, poll}
use mtnet.Poller.Active.{active_entries, All2}
use mtnet.Poller.Invariant.{IsConsistent}
use mtnet.Poller.Polling.{Answers, Listed, poll_lem}

-- The poller with its channels, and the calls so far.
abbrev pub Round : Type 0
Round = Poller × List Called

abbrev pub call : ℕ → Round → Round
call f (p, l) = (p, l ++ called f ∷ [])

abbrev pub call_read : ℕ → ℤ → Round → Round
call_read f t (p, l) = (p, l ++ called_read f t ∷ [])

abbrev pub self : ℕ → Round → Channel
self c (p, l) = p.channel_at c

abbrev pub store : ℕ → Channel → Round → Round
store c d (p, l) = (record p { channel_at = update p.channel_at c d }, l)

-- The loop over `activeChannels_`.
unfoldable pub handle_all : ℤ → List ℕ → Round → Round
unfolding handel_event
handle_all t [] s = s
handle_all t (c ∷ cs) s = handle_all t cs (handel_event (self c) (store c) call call_read t s)

unfoldable pub iterate : Polled → ℤ → Poller → Result Round
unfolding poll handle_all
iterate r t s = poll r s >>= (λ (a : Poller × List ℕ). ok (handle_all t a.1 (a.0, [])))

-- The calls that the events of the channels ask for, channel by channel.
abbrev pub all_calls : (ℕ → Channel) → ℤ → List ℕ → List Called
all_calls channel_at t [] = []
all_calls channel_at t (c ∷ cs) = calls_for (channel_at c) t ++ all_calls channel_at t cs

module _ (c : ℕ) where
  run_if-call :
      (b : Bool) (o : Option ℕ) (p : Poller) (l : List Called)
      → run_if (self c) (store c) call call_read b o call (p, l) ≡ (p, l ++ call_if b o called)
  run_if-call false o p l = ap (λ k. (p, k)) (sym (append-nil l))
  run_if-call true none p l = ap (λ k. (p, k)) (sym (append-nil l))
  run_if-call true (some f) p l = refl

  run_if-call_read :
      (b : Bool) (o : Option ℕ) (t : ℤ) (p : Poller) (l : List Called)
      → run_if (self c) (store c) call call_read b o (λ f. call_read f t) (p, l)
        ≡ (p, l ++ call_if b o (λ f. called_read f t))
  run_if-call_read false o t p l = ap (λ k. (p, k)) (sym (append-nil l))
  run_if-call_read true none t p l = ap (λ k. (p, k)) (sym (append-nil l))
  run_if-call_read true (some f) t p l = refl

  abbrev flagged : Bool → Poller → Poller
  flagged b p = record p {
    channel_at = update p.channel_at c (record (p.channel_at c) { event_handling = b });
  }

  handel_event-calls_for :
      (t : ℤ) (p : Poller) (l : List Called)
      → handel_event (self c) (store c) call call_read t (p, l)
        ≡ (flagged false (flagged true p), l ++ calls_for ((flagged true p).channel_at c) t)
  unfolding handel_event
  handel_event-calls_for t p l =
      let q = flagged true p in
      let d = q.channel_at c in
      let l1 = call_if (any_bit d.revents 0x28) d.error_callback called in
      let close = any_bit d.revents 0x10 && not (any_bit d.revents 0x01) in
      let l2 = call_if close d.close_callback called in
      let l3 = call_if (any_bit d.revents 0x2003) d.read_callback (λ f. called_read f t) in
      rw (
        run_if-call (any_bit d.revents 0x28) d.error_callback q l,
        run_if-call close d.close_callback q (l ++ l1),
        run_if-call_read (any_bit d.revents 0x2003) d.read_callback t q ((l ++ l1) ++ l2),
        run_if-call (any_bit d.revents 0x04) d.write_callback q (((l ++ l1) ++ l2) ++ l3),
        append_assoc ((l ++ l1) ++ l2) l3,
        append_assoc (l ++ l1) l2,
        append_assoc l l1,
      )

  -- The flag does not matter to the calls.
  flagged-calls_for :
      (b : Bool) (t : ℤ) (p : Poller) (d : ℕ)
      → calls_for ((flagged b p).channel_at d) t ≡ calls_for (p.channel_at d) t
  flagged-calls_for b t p d = elim (ℕ-cases d c) [
    | inl e ↦
        subst (λ x. calls_for ((flagged b p).channel_at x) t ≡ calls_for (p.channel_at x) t) (sym e)
          (ap (λ (x : Channel). calls_for x t)
            (update_self p.channel_at c (record (p.channel_at c) { event_handling = b })))
    | inr n ↦
        ap (λ (x : Channel). calls_for x t)
          (update_ne p.channel_at c (record (p.channel_at c) { event_handling = b }) d n)
  ]

all_calls-same :
    (f g : ℕ → Channel) (t : ℤ) (cs : List ℕ)
    → ((d : ℕ) → calls_for (f d) t ≡ calls_for (g d) t)
    → all_calls f t cs ≡ all_calls g t cs
all_calls-same f g t [] h = refl
all_calls-same f g t (c ∷ cs) h = ap₂ ◌++◌ (h c) (all_calls-same f g t cs h)

-- What the round leaves and what it has called.
pub record IsHandled (t : ℤ) (cs : List ℕ) (p : Poller) (l : List Called) (r : Round) : Type 0 where
  pub same_channels : r.0.channels ≡ p.channels
  pub same_pollfds : r.0.pollfds ≡ p.pollfds
  pub calls : r.1 ≡ l ++ all_calls p.channel_at t cs

handle_all-IsHandled :
    (t : ℤ) (cs : List ℕ) (p : Poller) (l : List Called)
    → IsHandled t cs p l (handle_all t cs (p, l))
unfolding handle_all
handle_all-IsHandled t [] p l = record {
  same_channels = refl;
  same_pollfds = refl;
  calls = sym (append-nil l);
}
handle_all-IsHandled t (c ∷ cs) p l =
    let q = flagged c false (flagged c true p) in
    let k = calls_for ((flagged c true p).channel_at c) t in
    let rest = handle_all-IsHandled t cs q (l ++ k) in
    let step = ap (handle_all t cs) (sym (handel_event-calls_for c t p l)) in
    let here = flagged-calls_for c true t p c in
    let same =
      all_calls-same q.channel_at p.channel_at t cs
        (λ d. flagged-calls_for c false t (flagged c true p) d ∙ flagged-calls_for c true t p d) in
    subst (λ (r : Round). IsHandled t (c ∷ cs) p l r) step
      (record {
        same_channels = rest.same_channels;
        same_pollfds = rest.same_pollfds;
        calls =
            rest.calls
            ∙ append_assoc l k (all_calls q.channel_at t cs)
            ∙ ap (λ x. l ++ x) (ap₂ ◌++◌ here same);
      })

-- What the answer of poll(2) asks for, entry by entry: the callbacks for the entry's events of the
-- channel that is registered for its descriptor.
abbrev pub entry_calls : Poller → ℤ → PollFd → Option ℕ → List Called
entry_calls s t e none = []
entry_calls s t e (some c) = calls_for (record (s.channel_at c) { revents = e.revents }) t

abbrev pub asked : Poller → ℤ → List PollFd → List Called
asked s t [] = []
asked s t (e ∷ es) = entry_calls s t e (s.channels e.fd) ++ asked s t es

all_calls-asked :
    (s p : Poller) (t : ℤ) (es : List PollFd) (cs : List ℕ)
    → All2 (Listed s p) es cs
    → all_calls p.channel_at t cs ≡ asked s t es
all_calls-asked s p t [] [] h = refl
all_calls-asked s p t [] (c ∷ cs) h = absurd h
all_calls-asked s p t (e ∷ es) [] h = absurd h
all_calls-asked s p t (e ∷ es) (c ∷ cs) h =
    let (reg, noted) = h.0 in
    ap₂ ◌++◌ (ap (λ (x : Channel). calls_for x t) noted ∙ sym (ap (entry_calls s t e) reg))
      (all_calls-asked s p t es cs h.1)

-- One round of the loop on a consistent poller, whatever events poll(2) answers with, where the
-- callbacks leave the channels alone: no assertion fails. For each entry with events, in the order
-- of the array, the channel that is registered for its descriptor gets these events, and its
-- callbacks for them are called, the error, the close, the read and the write callback in this
-- order, the read callback with the time of the poll. No other callback is called, and the
-- registrations stay.
pub iterate_lem :
    (r : Polled) (t : ℤ) (s : Poller)
    → IsConsistent s
    → Answers r s
    → (q : Poller) × (iterate r t s
        ≡ ok (q, asked s t (active_entries (store_revents s.pollfds r.revents))))
      × (q.channels ≡ s.channels)
      × (q.pollfds ≡ store_revents s.pollfds r.revents)
unfolding iterate
iterate_lem r t s v a =
    let fds = store_revents s.pollfds r.revents in
    let (p, active, done, valid, same, stored, listed, others) = poll_lem r s v a in
    let all = handle_all-IsHandled t active p [] in
    let calls = all.calls ∙ all_calls-asked s p t (active_entries fds) active listed in
    (
      (handle_all t active (p, [])).0,
      rw done (ap (λ l. ok ((handle_all t active (p, [])).0, l)) calls),
      all.same_channels ∙ same,
      all.same_pollfds ∙ stored,
    )
