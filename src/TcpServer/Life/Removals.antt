-- ===== src/TcpServer/Life/Removals.antt =====
-- The base loop of mtnet/TcpServer.cc runs `removeConnectionInLoop`.
use mtnet.Prelude.{
  ℕ, ◌+◌, ◌≡◌, ◌≢◌, refl, sym, ap, ◌∙◌, subst, List, true, false, ◌==◌, Option, none, some,
  some_injective, ok, Bool-cases, inl, inr, arith,
}
use mtnet.Prelude.Maps.{update}
use mtnet.Prelude.Bags.{bit, count, take_at, count-take_at}
use mtnet.TcpServer.Defs.{Connection, connect_destroyed, eqb_name}
use mtnet.TcpServer.Names.{eqb_name_iff, update_name_ne}
use mtnet.TcpServer.Connections.{remove_connection_in_loop_lem}
use mtnet.TcpServer.Life.Defs.{World, run_removal, without_removal}
use mtnet.TcpServer.Life.Phases.{
  Phase, closed, removed, is_known, is_establish, is_destroy, is_at, Fits, IsSound, Advance,
  Next-from, removes, update-all, ==-self, ==-ne, count_last,
}
use mtnet.TcpServer.Life.Apart.{IsApart-Fits, closed-of, last-apart}

removal-apart :
    (a b i : ℕ) (rs rest : List ℕ)
    → take_at i rs ≡ some (a, rest)
    → b ≢ a
    → count (is_at b) rest ≡ count (is_at b) rs
removal-apart a b i rs rest h n =
    let e = count-take_at (is_at b) i rs a rest h in
    let z : bit (a == b) ≡ 0 = ap bit (==-ne a b (λ p. n (sym p))) in omega (arith, e, z)

module _ (format : ℕ → List ℕ) (i a : ℕ) (rest : List ℕ) (w : World) (phase : ℕ → Phase) where
  pub run_removal-IsSound :
      IsSound format w phase
      → take_at i w.removals ≡ some (a, rest)
      → (v : World) × (run_removal a (without_removal rest w) ≡ ok v)
        × (q : ℕ → Phase) × IsSound format v q
        × Advance phase q
  unfolding run_removal
  run_removal-IsSound sound h =
      let taken = count-take_at (is_at a) i w.removals a rest h in
      let one : bit (a == a) ≡ 1 = ap bit (==-self a) in
      let left = count (is_at a) rest in
      let (is_closed, none_left) =
        closed-of (phase a) left (sym (sound.fits a).removes ∙ taken ∙ ap (λ n. n + left) one) in
      let f : Fits w.server (w.connection a) w.removals a closed =
        subst (λ q. Fits w.server (w.connection a) w.removals a q) is_closed (sound.fits a) in
      let (x, at_x, reg) = f.listed refl in
      let (c, t, at_c, named, done, valid, map, heap, asked) =
        remove_connection_in_loop_lem format w.server x.name a sound.valid reg in
      let r = connect_destroyed c.loop a in
      let due = count_last (is_destroy a) w.server.requests r in
      let before = f.destroys in
      let v : World = record (without_removal rest w) { server = t } in
      (
        v,
        rw done refl,
        update phase a removed,
        record {
          valid = valid;
          fits =
              update-all (λ b q. Fits t (w.connection b) rest b q) phase a removed
                (record {
                  establishes =
                      last-apart (is_establish a) w.server.requests t.requests r asked refl
                      ∙ f.establishes;
                  destroys = ap (count (is_destroy a)) asked ∙ omega (arith, due, one, before);
                  removes = none_left;
                  known = ap (λ (g : ℕ → Option Connection). is_known (g a)) heap ∙ f.known;
                  listed = λ e. absurd (false-true e);
                  in_phase = record {
                    stage_fits = f.in_phase.stage_fits;
                    life_fits = f.in_phase.life_fits;
                    poll_fits = f.in_phase.poll_fits;
                  };
                })
                (λ b n.
                  IsApart-Fits w.server t (w.connection b) (w.connection b) w.removals rest b
                    (phase b)
                    (record {
                      establishes =
                          last-apart (is_establish b) w.server.requests t.requests r asked refl;
                      destroys =
                          last-apart (is_destroy b) w.server.requests t.requests r asked
                            (==-ne a b (λ p. n (sym p)));
                      removes = removal-apart a b i w.removals rest h n;
                      known = ap (λ (g : ℕ → Option Connection). g b) heap;
                      listed = λ m own.
                          ap (λ (g : List ℕ → Option ℕ). g m) map
                          ∙ update_name_ne w.server.connections x.name none m
                              (other b n x.name reg m own)
                          ∙ own;
                      connection = refl;
                    })
                    (sound.fits b));
        },
        Next-from a phase closed removed is_closed removes,
      )
    where
      false-true : false ≡ true → ⊥
      false-true e = cc

      other :
          (b : ℕ)
          → b ≢ a
          → (n : List ℕ) → w.server.connections n ≡ some a
          → (m : List ℕ) → w.server.connections m ≡ some b
          → eqb_name m n ≡ false
      other b ne n reg m own = elim (Bool-cases (eqb_name m n)) [
        | inl e ↦
            absurd (
              ne
                (some_injective (sym own ∙ ap w.server.connections ((eqb_name_iff m n).0 e) ∙ reg)))
        | inr e ↦ e
      ]
