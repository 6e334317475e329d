-- ===== src/TcpServer/Life/Using.antt =====
-- Calls on a connection of mtnet/TcpServer.cc by its user and its channel.
use mtnet.Prelude.{
  ℕ, ◌+◌, ◌-◌, ◌≡◌, refl, sym, ap, ◌∙◌, subst, List, ◌++◌, true, false, ◌==◌, ok, ok_injective,
  append-nil, replicate, inl, inr, arith,
}
use mtnet.Prelude.Maps.{update, update_self, update_ne}
use mtnet.Prelude.Bags.{bit, count, count-append, count-replicate}
use mtnet.TcpConnection.Defs.{TcpConnection}
use mtnet.TcpServer.Life.Defs.{World, Polled, updated, Call, run_call, is_allowed, closes, act}
use mtnet.TcpServer.Life.Effects.{IsSame, IsClosing, closes-IsSame, closes-IsClosing}
use mtnet.TcpServer.Life.Calls.{run_call-Outcome}
use mtnet.TcpServer.Life.Phases.{
  Phase, live, closed, is_at, Fits, IsSound, Advance, stays, Next-from, closes as closes_phase,
  update-all, ==-self, ==-ne, count_last,
}
use mtnet.TcpServer.Life.Apart.{IsApart-Fits}
use mtnet.TcpServer.Life.Established.{IsSame-InPhase, polled-live, IsClosing-closed}

module _ (format : ℕ → List ℕ) (k : Call) (a : ℕ) (w : World) (phase : ℕ → Phase) where
  abbrev before : TcpConnection
  before = (w.connection a).tcp

  abbrev after : TcpConnection → Polled
  after d = updated (w.connection a) d

  abbrev used : TcpConnection → World
  used d = record w {
    connection = update w.connection a (after d);
    removals = w.removals ++ replicate (closes d - closes before) a;
  }

  act-used :
      (d : TcpConnection) (v : World) → run_call k before ≡ ok d → act k a w ≡ ok v → used d ≡ v
  unfolding act
  act-used d v done h = ok_injective (sym (rw done refl) ∙ h)

  count-replicate_one : (b n : ℕ) → (a == b) ≡ false → count (is_at b) (replicate n a) ≡ 0
  count-replicate_one b n h = count-replicate (is_at b) n a h

  -- The others do not see it.
  used-IsSound :
      (d : TcpConnection) (p : Phase)
      → IsSound format w phase
      → Fits w.server (after d) (used d).removals a p
      → IsSound format (used d) (update phase a p)
  used-IsSound d p sound here = record {
    valid = sound.valid;
    fits =
        update-all (λ b q. Fits w.server ((used d).connection b) (used d).removals b q) phase a p
          (subst (λ x. Fits w.server x (used d).removals a p)
            (sym (update_self w.connection a (after d))) here)
          (λ b n.
            IsApart-Fits w.server w.server (w.connection b) ((used d).connection b) w.removals
              (used d).removals b (phase b)
              (record {
                establishes = refl;
                destroys = refl;
                removes =
                    let more = replicate (closes d - closes before) a in
                    let sum = count-append (is_at b) w.removals more in
                    let zero =
                      count-replicate_one b (closes d - closes before)
                        (==-ne a b (λ e. n (sym e))) in
                    omega (arith, sum, zero);
                known = refl;
                listed = λ m reg. reg;
                connection = update_ne w.connection a (after d) b n;
              })
              (sound.fits b));
  }

  -- A call that does not close.
  used-IsSame :
      (d : TcpConnection)
      → IsSound format w phase
      → IsSame before d
      → Fits w.server (after d) (used d).removals a (phase a)
  used-IsSame d sound same =
      let f = sound.fits a in
      let n = closes-IsSame before d same in
      record {
        establishes = f.establishes;
        destroys = f.destroys;
        removes = none_more (closes d - closes before) (omega (arith, n)) ∙ f.removes;
        known = f.known;
        listed = f.listed;
        in_phase = IsSame-InPhase (phase a) (w.connection a) d same f.in_phase;
      }
    where
      none_more :
          (n : ℕ)
          → n ≡ 0
          → count (is_at a) (w.removals ++ replicate n a) ≡ count (is_at a) w.removals
      none_more n z =
          ap (λ m. count (is_at a) (w.removals ++ replicate m a)) z
          ∙ ap (count (is_at a)) (append-nil w.removals)

  used-IsClosing :
      (d : TcpConnection)
      → IsSound format w phase
      → phase a ≡ live
      → IsClosing before d
      → Fits w.server (after d) (used d).removals a closed
  used-IsClosing d sound alive closing =
      let f : Fits w.server (w.connection a) w.removals a live =
        subst (λ p. Fits w.server (w.connection a) w.removals a p) alive (sound.fits a) in
      let n = closes-IsClosing before d closing in
      let zero = f.removes in
      let sum = one_more (closes d - closes before) (omega (arith, n)) in
      record {
        establishes = f.establishes;
        destroys = f.destroys;
        removes = omega (arith, sum, zero);
        known = f.known;
        listed = f.listed;
        in_phase = IsClosing-closed (w.connection a) d closing f.in_phase;
      }
    where
      one_more :
          (n : ℕ)
          → n ≡ 1
          → count (is_at a) (w.removals ++ replicate n a) ≡ count (is_at a) w.removals + 1
      one_more n e =
          ap (λ m. count (is_at a) (w.removals ++ replicate m a)) e
          ∙ count_last (is_at a) w.removals a
          ∙ ap (λ b. count (is_at a) w.removals + bit b) (==-self a)

  pub act-IsSound :
      (d : TcpConnection) (v : World)
      → IsSound format w phase
      → run_call k before ≡ ok d
      → is_allowed k (w.connection a) ≡ true
      → act k a w ≡ ok v
      → (q : ℕ → Phase) × IsSound format v q × Advance phase q
  act-IsSound d v sound done h acted =
      let e = act-used d v done acted in
      elim (run_call-Outcome k (w.connection a) d h done) [
        | inl same ↦ (
          update phase a (phase a),
          subst (λ x. IsSound format x (update phase a (phase a))) e
              (used-IsSound d (phase a) sound (used-IsSame d sound same)),
          stays a,
        )
        | inr (event, closing) ↦
            let alive = polled-live (phase a) (w.connection a) (sound.fits a).in_phase event in
            (
              update phase a closed,
              subst (λ x. IsSound format x (update phase a closed)) e
                  (used-IsSound d closed sound (used-IsClosing d sound alive closing)),
              Next-from a phase live closed alive closes_phase,
            )
      ]
