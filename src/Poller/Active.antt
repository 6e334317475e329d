-- ===== src/Poller/Active.antt =====
-- `poll` and `fillActiveChannels` of mtnet/Poller.cc: the channels with events.
use mtnet.Prelude.{
  ℕ, suc, ◌-◌, ◌≡◌, ◌≢◌, ◌<◌, ◌≤◌, refl, sym, ap, ◌∙◌, inl, inr, List, [], ◌∷◌, ◌++◌, true, false,
  ◌==◌, some, length, if◌then◌else◌, ok, arith, Bool-cases, append-nil, append_assoc,
}
use mtnet.Prelude.Int.{pos, eqb_ℤ, eqb_ℤ_iff}
use mtnet.Prelude.Maps.{update, update_self, update_ne, ℕ-cases}
use mtnet.Channel.{Channel}
use mtnet.Poller.Defs.{PollFd, Poller, is_positive_short, activate, visit, fill_active_channels}

-- The entries with events.
abbrev pub active_entries : List PollFd → List PollFd
active_entries [] = []
active_entries (p ∷ ps) =
    if is_positive_short p.revents then p ∷ active_entries ps else active_entries ps

abbrev pub All2 : (PollFd → ℕ → Type 0) → List PollFd → List ℕ → Type 0
All2 R [] [] = Unit
All2 R [] (c ∷ cs) = ⊥
All2 R (p ∷ ps) [] = ⊥
All2 R (p ∷ ps) (c ∷ cs) = R p c × All2 R ps cs

-- The entry at `k`, if it has events, is that of a registered channel that knows its place.
abbrev pub Tracked : Poller → ℕ → PollFd → Type 0
Tracked u k p =
    is_positive_short p.revents ≡ true
    → (c : ℕ) × (u.channels p.fd ≡ some c)
      × ((u.channel_at c).fd ≡ p.fd)
      × ((u.channel_at c).index ≡ pos k)

abbrev pub AllTracked : Poller → ℕ → List PollFd → Type 0
AllTracked u k [] = Unit
AllTracked u k (p ∷ ps) = Tracked u k p × AllTracked u (suc k) ps

abbrev marked : Poller → ℕ → PollFd → Poller
marked u c p = record u {
  channel_at = update u.channel_at c (record (u.channel_at c) { revents = p.revents });
}

-- A channel keeps its descriptor and its index when its events are noted.
marked-same :
    (u : Poller) (c : ℕ) (p : PollFd) (d : ℕ)
    → (((marked u c p).channel_at d).fd ≡ (u.channel_at d).fd)
      × (((marked u c p).channel_at d).index ≡ (u.channel_at d).index)
marked-same u c p d = elim (ℕ-cases d c) [
  | inl e ↦
      let f = update_self u.channel_at c (record (u.channel_at c) { revents = p.revents }) in
      rw e (ap (λ (x : Channel). x.fd) f, ap (λ (x : Channel). x.index) f)
  | inr e ↦
      let f = update_ne u.channel_at c (record (u.channel_at c) { revents = p.revents }) d e in
      (ap (λ (x : Channel). x.fd) f, ap (λ (x : Channel). x.index) f)
]

marked-AllTracked :
    (u : Poller) (c : ℕ) (p : PollFd) (k : ℕ) (ps : List PollFd)
    → AllTracked u k ps
    → AllTracked (marked u c p) k ps
marked-AllTracked u c p k [] h = tt
marked-AllTracked u c p k (q ∷ qs) h = (
  λ on.
      let (d, reg, own, at) = h.0 on in
      let same = marked-same u c p d in (d, reg, same.0 ∙ own, same.1 ∙ at),
  marked-AllTracked u c p (suc k) qs h.1,
)

-- A channel that was listed for an entry at `k` or later, with that entry's events noted.
abbrev pub Reported : ℕ → Poller → Poller → PollFd → ℕ → Type 0
Reported k u t p c =
    (j : ℕ) × (k ≤ j)
    × ((u.channel_at c).index ≡ pos j)
    × (u.channels p.fd ≡ some c)
    × (t.channel_at c ≡ record (u.channel_at c) { revents = p.revents })

abbrev pub Differs : ℕ → List ℕ → Type 0
Differs d [] = Unit
Differs d (c ∷ cs) = (d ≢ c) × Differs d cs

pub record Filled (k : ℕ) (u : Poller) (rest : List PollFd) (t : Poller) (cs : List ℕ)
    : Type 0 where
  pub channels : t.channels ≡ u.channels
  pub pollfds : t.pollfds ≡ u.pollfds
  pub reported : All2 (Reported k u t) (active_entries rest) cs
  pub unlisted : (d : ℕ) → Differs d cs → t.channel_at d ≡ u.channel_at d
  pub same :
      (d : ℕ)
      → ((t.channel_at d).fd ≡ (u.channel_at d).fd)
        × ((t.channel_at d).index ≡ (u.channel_at d).index)

-- A channel with an earlier place is not among those reported.
Reported-Differs :
    (k j : ℕ) (u t : Poller) (d : ℕ) (ps : List PollFd) (cs : List ℕ)
    → (u.channel_at d).index ≡ pos j
    → j < k
    → All2 (Reported k u t) ps cs
    → Differs d cs
Reported-Differs k j u t d [] [] at early h = tt
Reported-Differs k j u t d [] (c ∷ cs) at early h = absurd h
Reported-Differs k j u t d (p ∷ ps) [] at early h = absurd h
Reported-Differs k j u t d (p ∷ ps) (c ∷ cs) at early h =
    let (i, later, at', reg, noted) = h.0 in
    (
      λ e.
          let both : pos j ≡ pos i = sym at ∙ ap (λ x. (u.channel_at x).index) e ∙ at' in
          let same : j ≡ i = cc in absurd (omega (arith, same, early, later)),
      Reported-Differs k j u t d ps cs at early h.1,
    )

-- What is reported after one more mark, seen from before it.
Reported-back :
    (k : ℕ) (u t : Poller) (c : ℕ) (p : PollFd) (ps : List PollFd) (cs : List ℕ)
    → (u.channel_at c).index ≡ pos k
    → All2 (Reported (suc k) (marked u c p) t) ps cs
    → All2 (Reported k u t) ps cs
Reported-back k u t c p [] [] at h = tt
Reported-back k u t c p [] (d ∷ ds) at h = absurd h
Reported-back k u t c p (q ∷ qs) [] at h = absurd h
Reported-back k u t c p (q ∷ qs) (d ∷ ds) at h =
    let (i, later, at', reg, noted) = h.0 in
    let here : (u.channel_at d).index ≡ pos i = sym (marked-same u c p d).1 ∙ at' in
    let other : d ≢ c = λ e.
      let both : pos i ≡ pos k = sym here ∙ ap (λ x. (u.channel_at x).index) e ∙ at in
      let same : i ≡ k = cc in absurd (omega (arith, same, later)) in
    let kept = update_ne u.channel_at c (record (u.channel_at c) { revents = p.revents }) d other in
    (
      (
        i,
        omega (arith, later),
        here,
        reg,
        noted ∙ ap (λ (x : Channel). record x { revents = q.revents }) kept,
      ),
      Reported-back k u t c p qs ds at h.1,
    )

-- Moving the first place on.
Reported-later :
    (k : ℕ) (u t : Poller) (ps : List PollFd) (cs : List ℕ)
    → All2 (Reported (suc k) u t) ps cs
    → All2 (Reported k u t) ps cs
Reported-later k u t [] [] h = tt
Reported-later k u t [] (c ∷ cs) h = absurd h
Reported-later k u t (p ∷ ps) [] h = absurd h
Reported-later k u t (p ∷ ps) (c ∷ cs) h =
    let (i, later, at, reg, noted) = h.0 in
    ((i, omega (arith, later), at, reg, noted), Reported-later k u t ps cs h.1)

-- Nothing is left to report.
pub Filled-nothing :
    (k : ℕ) (u : Poller) (rest : List PollFd) → active_entries rest ≡ [] → Filled k u rest u []
Filled-nothing k u rest e = record {
  channels = refl;
  pollfds = refl;
  reported = rw e tt;
  unlisted = λ d h. refl;
  same = λ d. (refl, refl);
}

pub nil_of_length : (xs : List PollFd) → (length xs == 0) ≡ true → xs ≡ []
nil_of_length [] h = refl
nil_of_length (x ∷ xs) h = ground arith

-- One more entry with events, in front.
Filled-marked :
    (k : ℕ) (u t : Poller) (c : ℕ) (p : PollFd) (ps : List PollFd) (cs : List ℕ)
    → is_positive_short p.revents ≡ true
    → u.channels p.fd ≡ some c
    → (u.channel_at c).index ≡ pos k
    → Filled (suc k) (marked u c p) ps t cs
    → Filled k u (p ∷ ps) t (c ∷ cs)
Filled-marked k u t c p ps cs on reg at f =
    let noted = record (u.channel_at c) { revents = p.revents } in
    let mine =
      Reported-Differs (suc k) k (marked u c p) t c (active_entries ps) cs
        ((marked-same u c p c).1 ∙ at) (omega arith) f.reported in
    record {
      channels = f.channels;
      pollfds = f.pollfds;
      reported = rw on (
        (k, omega arith, at, reg, f.unlisted c mine ∙ update_self u.channel_at c noted),
        Reported-back k u t c p (active_entries ps) cs at f.reported,
      );
      unlisted = λ d h. f.unlisted d h.1 ∙ update_ne u.channel_at c noted d h.0;
      same = λ d. let a = f.same d in let b = marked-same u c p d in (a.0 ∙ b.0, a.1 ∙ b.1);
    }

pub fill_lem :
    (rest : List PollFd) (k : ℕ) (u : Poller) (active : List ℕ)
    → AllTracked u k rest
    → (t : Poller) × (cs : List ℕ) × (fill_active_channels rest
          (length (active_entries rest))
          u
          active
        ≡ ok (t, active ++ cs))
      × Filled k u rest t cs
unfolding fill_active_channels visit activate
fill_lem [] k u active h = (u, [], rw append-nil, Filled-nothing k u [] refl)
fill_lem (p ∷ ps) k u active h = elim (Bool-cases (is_positive_short p.revents)) [
  | inl on ↦
      let (c, reg, own, at) = h.0 on in
      let same_fd : eqb_ℤ (u.channel_at c).fd p.fd ≡ true = (eqb_ℤ_iff _ _).1 own in
      let n = length (active_entries ps) in
      let more : (suc n == 0) ≡ false = ground arith in
      let less : suc n - 1 ≡ n = omega arith in
      let (t, cs, done, f) =
        fill_lem ps (suc k) (marked u c p) (active ++ c ∷ [])
          (marked-AllTracked u c p (suc k) ps h.1) in
      (
        t,
        c ∷ cs,
        rw (on, reg, same_fd, less, more)
            (done ∙ ap (λ l. ok (t, l)) (append_assoc active (c ∷ []) cs)),
        Filled-marked k u t c p ps cs on reg at f,
      )
  | inr off ↦ elim (Bool-cases (length (active_entries ps) == 0)) [
    | inl nothing ↦
        let none_left = nil_of_length (active_entries ps) nothing in
        (
          u,
          [],
          rw (off, nothing, append-nil active),
          Filled-nothing k u (p ∷ ps) (rw off none_left),
        )
    | inr more ↦
        let (t, cs, done, f) = fill_lem ps (suc k) u active h.1 in
        (
          t,
          cs,
          rw (off, more) done,
          record {
            channels = f.channels;
            pollfds = f.pollfds;
            reported = rw off (Reported-later k u t (active_entries ps) cs f.reported);
            unlisted = f.unlisted;
            same = f.same;
          },
        )
  ]
]
