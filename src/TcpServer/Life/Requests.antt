-- ===== src/TcpServer/Life/Requests.antt =====
-- The loops of mtnet/TcpServer.cc's connections run what the server handed to them.
use mtnet.Prelude.{ℕ, ◌+◌, ◌≡◌, ◌≢◌, refl, sym, ap, ◌∙◌, subst, List, true, false, ◌==◌, some, ok}
use mtnet.Prelude.Maps.{update, update_self, update_ne}
use mtnet.Prelude.Bags.{bit, count, take_at, count-take_at}
use mtnet.TcpServer.Defs.{Request, connect_established, connect_destroyed}
use mtnet.TcpServer.Life.Defs.{World, Polled, run_request, without_request}
use mtnet.TcpServer.Life.Phases.{
  Phase, accepted, live, removed, gone, is_establish, is_destroy, Fits, IsSound, Advance, Next-from,
  establishes, destroys, update-all, ==-self, ==-ne,
}
use mtnet.TcpServer.Life.Apart.{IsApart-Fits, accepted-of, removed-of, request-apart}
use mtnet.TcpServer.Life.Established.{connect_established-live, connect_destroyed-gone}

module _ (format : ℕ → List ℕ) (i : ℕ) (rest : List Request) (w : World) (phase : ℕ → Phase)
    (sound : IsSound format w phase) where
  -- A request for `a` has run, and made `d` of its connection.
  abbrev ran : ℕ → Polled → World
  ran a d = record (without_request rest w) { connection = update w.connection a d }

  -- The other connections do not see it.
  ran-IsSound :
      (r : Request) (a : ℕ) (d : Polled) (p : Phase)
      → take_at i w.server.requests ≡ some (r, rest)
      → ((b : ℕ) → b ≢ a → (is_establish b r ≡ false) × (is_destroy b r ≡ false))
      → Fits (without_request rest w).server d w.removals a p
      → IsSound format (ran a d) (update phase a p)
  ran-IsSound r a d p h others here = record {
    valid = record { ready = sound.valid.ready; registered = sound.valid.registered };
    fits =
        update-all (λ b q. Fits (ran a d).server ((ran a d).connection b) w.removals b q) phase a p
          (subst (λ x. Fits (ran a d).server x w.removals a p) (sym (update_self w.connection a d))
            here)
          (λ b n.
            IsApart-Fits w.server (ran a d).server (w.connection b) ((ran a d).connection b)
              w.removals w.removals b (phase b)
              (record {
                establishes =
                    request-apart (is_establish b) i w.server.requests r rest h (others b n).0;
                destroys = request-apart (is_destroy b) i w.server.requests r rest h (others b n).1;
                removes = refl;
                known = refl;
                listed = λ m reg. reg;
                connection = update_ne w.connection a d b n;
              })
              (sound.fits b));
  }

  -- Its own address in the phase that it must be in.
  Fits-of : (a : ℕ) (p : Phase) → phase a ≡ p → Fits w.server (w.connection a) w.removals a p
  Fits-of a p e = subst (λ q. Fits w.server (w.connection a) w.removals a q) e (sound.fits a)

  pub run_request-IsSound :
      (r : Request)
      → take_at i w.server.requests ≡ some (r, rest)
      → (v : World) × (run_request r (without_request rest w) ≡ ok v)
        × (q : ℕ → Phase) × IsSound format v q
        × Advance phase q
  unfolding run_request
  run_request-IsSound (connect_established l a) h =
      let r = connect_established l a in
      let taken = count-take_at (is_establish a) i w.server.requests r rest h in
      let one : bit (a == a) ≡ 1 = ap bit (==-self a) in
      let left = count (is_establish a) rest in
      let (is_accepted, none_left) =
        accepted-of (phase a) left
          (sym (sound.fits a).establishes ∙ taken ∙ ap (λ n. n + left) one) in
      let f = Fits-of a accepted is_accepted in
      let (d, done, alive) = connect_established-live (w.connection a) f.in_phase in
      (
        ran a (record { tcp = d; polled = true }),
        rw done refl,
        update phase a live,
        ran-IsSound r a (record { tcp = d; polled = true }) live h
            (λ b n. (==-ne a b (λ e. n (sym e)), refl))
            (record {
              establishes = none_left;
              destroys =
                  request-apart (is_destroy a) i w.server.requests r rest h refl ∙ f.destroys;
              removes = f.removes;
              known = f.known;
              listed = f.listed;
              in_phase = alive;
            }),
        Next-from a phase accepted live is_accepted establishes,
      )
  run_request-IsSound (connect_destroyed l a) h =
      let r = connect_destroyed l a in
      let taken = count-take_at (is_destroy a) i w.server.requests r rest h in
      let one : bit (a == a) ≡ 1 = ap bit (==-self a) in
      let left = count (is_destroy a) rest in
      let (is_removed, none_left) =
        removed-of (phase a) left (sym (sound.fits a).destroys ∙ taken ∙ ap (λ n. n + left) one) in
      let f = Fits-of a removed is_removed in
      let (d, done, dead) = connect_destroyed-gone (w.connection a) f.in_phase in
      (
        ran a (record { tcp = d; polled = false }),
        rw done refl,
        update phase a gone,
        ran-IsSound r a (record { tcp = d; polled = false }) gone h
            (λ b n. (refl, ==-ne a b (λ e. n (sym e))))
            (record {
              establishes =
                  request-apart (is_establish a) i w.server.requests r rest h refl ∙ f.establishes;
              destroys = none_left;
              removes = f.removes;
              known = f.known;
              listed = λ e. absurd (false-true e);
              in_phase = dead;
            }),
        Next-from a phase removed gone is_removed destroys,
      )
    where
      false-true : false ≡ true → ⊥
      false-true e = cc
