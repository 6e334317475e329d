-- ===== src/TcpServer/Life/Established.antt =====
-- `connectEstablished` and `connectDestroyed` of mtnet/TcpConnection.cc at their turn in the life of a
-- connection, and the calls in between.
use mtnet.Prelude.{
  ◌≡◌, ◌⊎◌, refl, sym, ap, ◌∙◌, [], ◌∷◌, ◌++◌, Bool, true, false, not, ◌&&◌, ◌||◌, ◌==◌, ok, arith,
  inl, inr,
}
use mtnet.Channel.{change, enable_reading, disable_all}
use mtnet.TcpConnection.Defs.{
  TcpConnection, State, connecting, connected, disconnecting, disconnected, connection_callback,
  close_callback, remove_channel, is_connected, is_disconnecting, is_connecting, emit, want, init,
  connect_established, connect_destroyed,
}
use mtnet.TcpServer.Life.Defs.{Polled, updated}
use mtnet.TcpServer.Life.Effects.{stage, life-append, IsSame, IsClosing}
use mtnet.TcpServer.Life.Phases.{
  Phase, unused, accepted, live, closed, removed, gone, is_used, to_establish, to_remove,
  to_destroy, stage_of, PollFits, InPhase,
}

stage-connecting : (s : State) → stage s ≡ 0 → is_connecting s ≡ true
stage-connecting connecting h = refl
stage-connecting connected h = absurd (omega (arith, h))
stage-connecting disconnecting h = absurd (omega (arith, h))
stage-connecting disconnected h = absurd (omega (arith, h))

pub stage-is_open : (s : State) → stage s ≡ 1 → (is_connected s || is_disconnecting s) ≡ true
stage-is_open connected h = refl
stage-is_open disconnecting h = refl
stage-is_open connecting h = absurd (omega (arith, h))
stage-is_open disconnected h = absurd (omega (arith, h))

pub init-accepted :
    (has_write_complete : Bool)
    → InPhase accepted (record { tcp = init has_write_complete; polled = false })
unfolding init
init-accepted has_write_complete = record { stage_fits = refl; life_fits = refl; poll_fits = refl }

pub connect_established-live :
    (c : Polled)
    → InPhase accepted c
    → (d : TcpConnection) × (connect_established c.tcp ≡ ok d)
      × InPhase live (record { tcp = d; polled = true })
unfolding connect_established
connect_established-live c p =
    let up : is_connecting c.tcp.state ≡ true = stage-connecting c.tcp.state p.stage_fits in
    (
      emit connection_callback (want enable_reading (record c.tcp { state = connected })),
      rw up refl,
      record {
        stage_fits = refl;
        life_fits =
            life-append c.tcp.effects (connection_callback ∷ [])
            ∙ ap (λ l. l ++ connection_callback ∷ []) p.life_fits;
        poll_fits = tt;
      },
    )

pub connect_destroyed-gone :
    (c : Polled)
    → InPhase removed c
    → (d : TcpConnection) × (connect_destroyed c.tcp ≡ ok d)
      × InPhase gone (record { tcp = d; polled = false })
unfolding connect_destroyed change
connect_destroyed-gone c p =
    let up : (is_connected c.tcp.state || is_disconnecting c.tcp.state) ≡ true =
      stage-is_open c.tcp.state p.stage_fits in
    (
      emit remove_channel
          (emit connection_callback (want disable_all (record c.tcp { state = disconnected }))),
      rw up refl,
      record {
        stage_fits = refl;
        life_fits =
            life-append (c.tcp.effects ++ connection_callback ∷ []) (remove_channel ∷ [])
            ∙ ap (λ l. l ++ remove_channel ∷ [])
                (life-append c.tcp.effects (connection_callback ∷ [])
                  ∙ ap (λ l. l ++ connection_callback ∷ []) p.life_fits);
        poll_fits = refl;
      },
    )

pub IsSame-InPhase :
    (p : Phase) (c : Polled) (d : TcpConnection)
    → IsSame c.tcp d
    → InPhase p c
    → InPhase p (updated c d)
IsSame-InPhase p c d s i = record {
  stage_fits = s.stage_same ∙ i.stage_fits;
  life_fits = s.life_same ∙ i.life_fits;
  poll_fits = unseen p i.poll_fits;
}
  where
    and_false : c.polled ≡ false → (c.polled && not (d.events == 0)) ≡ false
    and_false h = rw h refl

    unseen : (q : Phase) → PollFits q c.polled → PollFits q (updated c d).polled
    unseen unused w = and_false w
    unseen accepted w = and_false w
    unseen live w = tt
    unseen closed w = and_false w
    unseen removed w = and_false w
    unseen gone w = and_false w

-- poll(2) looks at a live connection only.
pub polled-live : (p : Phase) (c : Polled) → InPhase p c → c.polled ≡ true → p ≡ live
polled-live p c i h = go p i.poll_fits
  where
    no : c.polled ≡ false → ⊥
    no w = let e : true ≡ false = sym h ∙ w in cc

    go : (q : Phase) → PollFits q c.polled → q ≡ live
    go unused w = absurd (no w)
    go accepted w = absurd (no w)
    go live w = refl
    go closed w = absurd (no w)
    go removed w = absurd (no w)
    go gone w = absurd (no w)

pub IsClosing-closed :
    (c : Polled) (d : TcpConnection)
    → IsClosing c.tcp d
    → InPhase live c
    → InPhase closed (updated c d)
IsClosing-closed c d k i = record {
  stage_fits = k.stays;
  life_fits = k.life_closed ∙ ap (λ l. l ++ close_callback ∷ []) i.life_fits;
  poll_fits = none_wanted c.polled (ap (λ n. not (n == 0)) k.wants_none);
}
  where
    none_wanted : (b : Bool) → not (d.events == 0) ≡ false → (b && not (d.events == 0)) ≡ false
    none_wanted true h = h
    none_wanted false h = refl

pub stage-disconnected : (s : State) → stage s ≡ 2 → s ≡ disconnected
stage-disconnected disconnected h = refl
stage-disconnected connecting h = absurd (omega (arith, h))
stage-disconnected connected h = absurd (omega (arith, h))
stage-disconnected disconnecting h = absurd (omega (arith, h))

-- A connection that poll(2) looks at is up.
pub InPhase-is_open :
    (p : Phase) (c : Polled)
    → InPhase p c
    → c.polled ≡ true
    → (is_connected c.tcp.state || is_disconnecting c.tcp.state) ≡ true
InPhase-is_open p c i looks =
    stage-is_open c.tcp.state (i.stage_fits ∙ ap stage_of (polled-live p c i looks))

-- A phase that waits for nothing.
pub Phase-settled :
    (p : Phase)
    → is_used p ≡ true
    → to_establish p ≡ 0
    → to_remove p ≡ 0
    → to_destroy p ≡ 0
    → (p ≡ live) ⊎ (p ≡ gone)
Phase-settled unused u e r d = cc
Phase-settled accepted u e r d = absurd (omega (arith, e))
Phase-settled live u e r d = inl refl
Phase-settled closed u e r d = absurd (omega (arith, r))
Phase-settled removed u e r d = absurd (omega (arith, d))
Phase-settled gone u e r d = inr refl
