-- ===== src/TcpServer/Life/Accepting.antt =====
-- `newConnection` of mtnet/TcpServer.cc begins the life of a connection.
use mtnet.Prelude.{
  ℕ, ◌≡◌, ◌≢◌, refl, sym, ap, ◌∙◌, subst, List, [], ◌∷◌, ◌++◌, Bool, false, ◌==◌, Option, none,
  some, none-ne-some, ok, Bool-cases, inl, inr, arith,
}
use mtnet.Prelude.Maps.{update, update_self, update_ne}
use mtnet.Prelude.Bags.{bit, count}
use mtnet.TcpConnection.Defs.{TcpConnection}
use mtnet.TcpConnection.Defs as Connected
use mtnet.TcpServer.Defs.{TcpServer, Connection, connect_established, update_name, eqb_name}
use mtnet.TcpServer.Names.{eqb_name_iff, update_name_self, update_name_ne}
use mtnet.TcpServer.Connections.{IsInjective, new_connection_lem}
use mtnet.TcpServer.Life.Defs.{World, Polled, accept}
use mtnet.TcpServer.Life.Phases.{
  Phase, unused, accepted, is_known, is_establish, is_destroy, InPhase, Fits, IsSound, Advance,
  Next-from, accepts, update-all, ==-self, ==-ne, count_last,
}
use mtnet.TcpServer.Life.Apart.{IsApart, IsApart-Fits, unused-of, last-apart}
use mtnet.TcpServer.Life.Established.{init-accepted}

abbrev made : Bool → Polled
made hw = record { tcp = Connected.init hw; polled = false }

module _ (format : ℕ → List ℕ) where
  pub accept-IsSound :
      IsInjective format
      → (hw : Bool) (address sockfd : ℕ) (w : World) (phase : ℕ → Phase) → IsSound format w phase
      → w.server.connection_at address ≡ none
      → (v : World) × (accept format hw address sockfd w ≡ ok v)
        × IsSound format v (update phase address accepted)
        × Advance phase (update phase address accepted)
  unfolding accept
  accept-IsSound injective hw address sockfd w phase sound free =
      let (c, t, done, valid, fresh, map, heap, asked) =
        new_connection_lem format injective w.server address sockfd sound.valid free in
      let v : World = record w { server = t; connection = update w.connection address (made hw) } in
      (
        v,
        rw done refl,
        record {
          valid = valid;
          fits =
              update-all (λ b q. Fits v.server (v.connection b) v.removals b q) phase address
                accepted (here c t map heap asked fresh)
                (λ b n.
                  IsApart-Fits w.server t (w.connection b) (v.connection b) w.removals w.removals b
                    (phase b) (apart c t map heap asked fresh b n) (sound.fits b));
        },
        Next-from address phase unused accepted is_unused accepts,
      )
    where
      is_unused : phase address ≡ unused
      is_unused = unused-of (phase address) (sym (sound.fits address).known ∙ ap is_known free)

      old : Fits w.server (w.connection address) w.removals address unused
      old =
          subst (λ p. Fits w.server (w.connection address) w.removals address p) is_unused
            (sound.fits address)

      here :
          (c : Connection) (t : TcpServer)
          → t.connections ≡ update_name w.server.connections c.name (some address)
          → t.connection_at ≡ update w.server.connection_at address (some c)
          → t.requests ≡ w.server.requests ++ connect_established c.loop address ∷ []
          → w.server.connections c.name ≡ none
          → Fits t (update w.connection address (made hw) address) w.removals address accepted
      here c t map heap asked fresh =
          let r = connect_established c.loop address in
          let e = count_last (is_establish address) w.server.requests r in
          let z : bit (address == address) ≡ 1 = ap bit (==-self address) in
          let zero = old.establishes in
          let at : t.connection_at address ≡ some c =
            ap (λ (f : ℕ → Option Connection). f address) heap
            ∙ update_self w.server.connection_at address (some c) in
          record {
            establishes = ap (count (is_establish address)) asked ∙ omega (arith, e, z, zero);
            destroys =
                last-apart (is_destroy address) w.server.requests t.requests r asked refl
                ∙ old.destroys;
            removes = old.removes;
            known = ap is_known at;
            listed = λ h. (
              c,
              at,
              ap (λ (f : List ℕ → Option ℕ). f c.name) map
                  ∙ update_name_self w.server.connections c.name (some address),
            );
            in_phase =
                subst (λ x. InPhase accepted x) (sym (update_self w.connection address (made hw)))
                  (init-accepted hw);
          }

      apart :
          (c : Connection) (t : TcpServer)
          → t.connections ≡ update_name w.server.connections c.name (some address)
          → t.connection_at ≡ update w.server.connection_at address (some c)
          → t.requests ≡ w.server.requests ++ connect_established c.loop address ∷ []
          → w.server.connections c.name ≡ none
          → (b : ℕ) → b ≢ address
          → IsApart w.server t
              (w.connection b)
              (update w.connection address (made hw) b)
              w.removals
              w.removals
              b
      apart c t map heap asked fresh b n =
          let r = connect_established c.loop address in
          record {
            establishes =
                last-apart (is_establish b) w.server.requests t.requests r asked
                  (==-ne address b (λ e. n (sym e)));
            destroys = last-apart (is_destroy b) w.server.requests t.requests r asked refl;
            removes = refl;
            known =
                ap (λ (f : ℕ → Option Connection). f b) heap
                ∙ update_ne w.server.connection_at address (some c) b n;
            listed = λ m reg.
                ap (λ (f : List ℕ → Option ℕ). f m) map
                ∙ update_name_ne w.server.connections c.name (some address) m (other m reg)
                ∙ reg;
            connection = update_ne w.connection address (made hw) b n;
          }
        where
          other : (m : List ℕ) → w.server.connections m ≡ some b → eqb_name m c.name ≡ false
          other m reg = elim (Bool-cases (eqb_name m c.name)) [
            | inl e ↦ absurd (
                none-ne-some fresh
                  (ap w.server.connections (sym ((eqb_name_iff m c.name).0 e)) ∙ reg))
            | inr e ↦ e
          ]
