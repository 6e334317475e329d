-- ===== src/TcpServer/Life/Safety.antt =====
-- Whatever the loops of mtnet/TcpServer.cc and its connections do, and in whatever order.
use mtnet.Prelude.{
  ℕ, ◌⊎◌, ◌||◌, ◌-◌, ◌≡◌, refl, sym, ap, ◌∙◌, subst, List, [], ◌∷◌, ◌++◌, Bool, true, false, none,
  some, some_injective, none-ne-some, Result, ok, ok_injective, replicate, inl, inr,
}
use mtnet.Prelude.Maps.{update}
use mtnet.Prelude.Bags.{count, take_at}
use mtnet.Channel.{disable_all}
use mtnet.TcpConnection.Defs.{
  TcpConnection, Effect, connection_callback, close_callback, remove_channel, disconnected,
  is_connected, is_disconnecting, emit, want, wrote, handle_close,
}
use mtnet.Buffer.{Readv}
use mtnet.TcpConnection.Defs as Connected
use mtnet.TcpServer.Defs.{TcpServer, Connection, Request}
use mtnet.TcpServer.Connections.{IsInjective, IsReady}
use mtnet.TcpServer.Life.Defs.{
  World, Step, Steps, accepts, runs, removes, calls, here, next, happens, updated, run_call, closes,
  act, accept, run_request, without_request, run_removal, without_removal,
}
use mtnet.TcpServer.Life.Effects.{life}
use mtnet.TcpServer.Life.Phases.{
  Phase, unused, accepted, is_used, is_registered, stage_of, history, is_known, is_establish,
  is_destroy, is_at, IsSound, Advance, Lives, here as here_phases, next as next_phases,
}
use mtnet.TcpServer.Life.Accepting.{accept-IsSound}
use mtnet.TcpServer.Life.Requests.{run_request-IsSound}
use mtnet.TcpServer.Life.Removals.{run_removal-IsSound}
use mtnet.TcpServer.Life.Using.{act-IsSound}
use mtnet.TcpServer.Life.Established.{
  stage-is_open, stage-disconnected, InPhase-is_open, Phase-settled,
}

-- A server that has not had a connection.
pub record IsFresh (s : TcpServer) : Type 0 where
  pub ready : IsReady s.thread_pool
  pub unregistered : (n : List ℕ) → s.connections n ≡ none
  pub unused_addresses : (a : ℕ) → s.connection_at a ≡ none
  pub no_requests : s.requests ≡ []

abbrev pub begin : TcpServer → World
begin s = record {
  server = s;
  connection = λ a. record { tcp = Connected.init false; polled = false };
  removals = [];
}

-- What is due: `newConnection` with an unused address, a waiting `connectEstablished` or
-- `connectDestroyed`, a waiting `removeConnectionInLoop`, and the `handleClose` of a POLLHUP, for a
-- channel that poll(2) looks at.
pub data Turn (w : World) : Type 0 where
  accepting :
      (has_write_complete : Bool) (address sockfd : ℕ)
      → w.server.connection_at address ≡ none
      → Turn w
  running :
      (i : ℕ) (r : Request) (rest : List Request)
      → take_at i w.server.requests ≡ some (r, rest)
      → Turn w
  removing : (i address : ℕ) (rest : List ℕ) → take_at i w.removals ≡ some (address, rest) → Turn w
  hanging_up : (address : ℕ) → (w.connection address).polled ≡ true → Turn w

unfoldable pub perform : (ℕ → List ℕ) → (w : World) → Turn w → Result World
unfolding accept run_request run_removal act
perform format w (accepting hw address sockfd free) = accept format hw address sockfd w
perform format w (running i r rest taken) = run_request r (without_request rest w)
perform format w (removing i address rest taken) = run_removal address (without_removal rest w)
perform format w (hanging_up address wants) =
    act (happens (Readv.stored []) (wrote 0) 0x10) address w

-- The calls in the life of a connection, in their order.
abbrev pub whole_life : List Effect
whole_life = connection_callback ∷ close_callback ∷ connection_callback ∷ remove_channel ∷ []

module _ (format : ℕ → List ℕ) where
  begin-IsSound : (s : TcpServer) → IsFresh s → IsSound format (begin s) (λ a. unused)
  unfolding Connected.init
  begin-IsSound s f = record {
    valid = record {
      ready = f.ready;
      registered = λ n a h. absurd (none-ne-some (f.unregistered n) h);
    };
    fits = λ a. record {
      establishes = ap (count (is_establish a)) f.no_requests;
      destroys = ap (count (is_destroy a)) f.no_requests;
      removes = refl;
      known = ap is_known (f.unused_addresses a);
      listed = λ e. absurd (false-true e);
      in_phase = record { stage_fits = refl; life_fits = refl; poll_fits = refl };
    };
  }
    where
      false-true : false ≡ true → ⊥
      false-true e = cc

  abbrev Sound : World → Type 0
  Sound w = (q : ℕ → Phase) × IsSound format w q

  -- The phases of a world, reached from those before.
  abbrev After : (ℕ → Phase) → World → Type 0
  After q w = (r : ℕ → Phase) × IsSound format w r × Advance q r

  ok-After :
      (q : ℕ → Phase) (r : Result World) (u v : World) → r ≡ ok u → r ≡ ok v → After q u → After q v
  ok-After q r u v e f s = subst (After q) (ok_injective (sym e ∙ f)) s

  module _ (injective : IsInjective format) where
    Step-After : (w v : World) (q : ℕ → Phase) → IsSound format w q → Step format w v → After q v
    Step-After w v q s (accepts hw address sockfd free done) =
        let (u, e, t, more) = accept-IsSound format injective hw address sockfd w q s free in
        ok-After q (accept format hw address sockfd w) u v e done
          (update q address accepted, t, more)
    Step-After w v q s (runs i r rest taken done) =
        let (u, e, p, t, more) = run_request-IsSound format i rest w q s r taken in
        ok-After q (run_request r (without_request rest w)) u v e done (p, t, more)
    Step-After w v q s (removes i address rest taken done) =
        let (u, e, p, t, more) = run_removal-IsSound format i address rest w q s taken in
        ok-After q (run_removal address (without_removal rest w)) u v e done (p, t, more)
    Step-After w v q s (calls k address c d known called allowed done) =
        act-IsSound format k address w q d v s called allowed done

    -- A server starts without connections, and different numbers are printed differently; each new
    -- connection is at an address that no connection has had. The loops run what waits for them in
    -- any order, and meanwhile the connections are used in any way that succeeds, and get any
    -- events while poll(2) looks at their channels, but no POLLHUP with POLLPRI or POLLRDHUP and
    -- without POLLIN. Then the run is one of the simple machine in which each connection is in a
    -- phase, and moves from unused to accepted, live, closed, removed and gone, one connection at
    -- a time: at its end server, connections and waiting functors are as the phases say.
    pub Steps-Lives :
        (s : TcpServer) (w : World)
        → IsFresh s
        → Steps format (begin s) w
        → (q : ℕ → Phase) × Lives (λ a. unused) q × IsSound format w q
    Steps-Lives s w f here = (λ a. unused, here_phases, begin-IsSound s f)
    Steps-Lives s w f (next {u} us step) =
        let (q, lives, sound) = Steps-Lives s u f us in
        let (r, reached, more) = Step-After u w q sound step in (r, next_phases lives more, reached)

    Steps-IsSound : (s : TcpServer) (w : World) → IsFresh s → Steps format (begin s) w → Sound w
    Steps-IsSound s w f run = let (q, lives, sound) = Steps-Lives s w f run in (q, sound)

    Sound-perform : (w : World) → Sound w → (t : Turn w) → (v : World) × (perform format w t ≡ ok v)
    unfolding perform act run_call handle_close
    Sound-perform w (q, s) (accepting hw address sockfd free) =
        let (v, done, t, more) = accept-IsSound format injective hw address sockfd w q s free in
        (v, done)
    Sound-perform w (q, s) (running i r rest taken) =
        let (v, done, p, t, more) = run_request-IsSound format i rest w q s r taken in (v, done)
    Sound-perform w (q, s) (removing i address rest taken) =
        let (v, done, p, t, more) = run_removal-IsSound format i address rest w q s taken in
        (v, done)
    Sound-perform w (q, s) (hanging_up address wants) =
        let c = (w.connection address).tcp in
        let up =
          InPhase-is_open (q address) (w.connection address) (s.fits address).in_phase wants in
        let d = emit close_callback (want disable_all c) in
        (
          record w {
            connection = update w.connection address (updated (w.connection address) d);
            removals = w.removals ++ replicate (closes d - closes c) address;
          },
          rw up refl,
        )

    -- A server starts without connections, and different numbers are printed differently; each new
    -- connection is at an address that no connection has had. The loops run what waits for them in
    -- any order, and meanwhile the connections are used in any way that succeeds, and get any
    -- events while poll(2) looks at their channels, but no POLLHUP with POLLPRI or POLLRDHUP and
    -- without POLLIN. Then at every moment whatever is due succeeds, none of its assertions
    -- failing: a new connection, a waiting `connectEstablished` or `connectDestroyed`, a waiting
    -- `removeConnectionInLoop`, and the `handleClose` of a POLLHUP.
    pub Steps-perform :
        (s : TcpServer) (w : World)
        → IsFresh s
        → Steps format (begin s) w
        → (t : Turn w) → (v : World) × (perform format w t ≡ ok v)
    Steps-perform s w f run t = Sound-perform w (Steps-IsSound s w f run) t

    -- A server starts without connections, and different numbers are printed differently; its
    -- loops, users and channels do what they may in `Steps-Lives`. When nothing waits for the
    -- loops, each connection that was made is up and in the server's map under its name, and only
    -- the connection callback was called for it; or it is down, and the connection callback, the
    -- close callback, the connection callback again and the removal of its channel came once each,
    -- in this order.
    pub settled :
        (s : TcpServer) (w : World)
        → IsFresh s
        → Steps format (begin s) w
        → w.server.requests ≡ []
        → w.removals ≡ []
        → (a : ℕ) (c : Connection) → w.server.connection_at a ≡ some c
        → (((is_connected (w.connection a).tcp.state || is_disconnecting (w.connection a).tcp.state)
              ≡ true)
            × (w.server.connections c.name ≡ some a)
            × (life (w.connection a).tcp.effects ≡ connection_callback ∷ []))
          ⊎ (((w.connection a).tcp.state ≡ disconnected)
              × (life (w.connection a).tcp.effects ≡ whole_life))
    settled s w f run no_requests no_removals a c at =
        let (q, sound) = Steps-IsSound s w f run in
        let fit = sound.fits a in
        let known : is_used (q a) ≡ true = sym fit.known ∙ ap is_known at in
        let p = fit.in_phase in
        elim (Phase-settled (q a) known
          (sym fit.establishes ∙ ap (count (is_establish a)) no_requests)
          (sym fit.removes ∙ ap (count (is_at a)) no_removals)
          (sym fit.destroys ∙ ap (count (is_destroy a)) no_requests)) [
            | inl e ↦
                let (x, at_x, reg) = fit.listed (ap is_registered e) in
                let same : x ≡ c = some_injective (sym at_x ∙ at) in
                inl (
                  stage-is_open (w.connection a).tcp.state (p.stage_fits ∙ ap stage_of e),
                  ap (λ (y : Connection). w.server.connections y.name) (sym same) ∙ reg,
                  p.life_fits ∙ ap history e,
                )
            | inr e ↦ inr (
              stage-disconnected (w.connection a).tcp.state (p.stage_fits ∙ ap stage_of e),
              p.life_fits ∙ ap history e,
            )
          ]
