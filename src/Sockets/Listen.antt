-- ===== src/Sockets/Listen.antt =====
-- How mtnet/Acceptor.cc opens its socket, over mtnet/Socket.cc: an error is logged, and nothing stops.
use mtnet.Prelude.{◌≡◌, ◌↔◌, refl, List, [], ◌∷◌, ◌++◌, Bool, if◌then◌else◌, ℕ}
use mtnet.Prelude.Int.{ℤ}
use mtnet.Logging.{level_fatal}
use mtnet.Sockets.Defs.{
  SysCall, failed, returned, int_of, Message, level_of, create_nonblocking_or_die, bind_or_die,
  listen_or_die, close, shutdown_write,
}

-- The methods of `Socket` that pass on to `sockets`.
unfoldable pub bind_address : SysCall → List Message
unfolding bind_or_die
bind_address bind = bind_or_die bind

unfoldable pub socket_listen : SysCall → List Message
unfolding listen_or_die
socket_listen listen = listen_or_die listen

unfoldable pub socket_destroy : SysCall → List Message
unfolding close
socket_destroy r = close r

unfoldable pub socket_shutdown_write : SysCall → List Message
unfolding shutdown_write
socket_shutdown_write r = shutdown_write r

-- The value that `setReuseAddr` and `setTcpNoDelay` give to setsockopt(2), whose result they ignore.
unfoldable pub optval : Bool → ℕ
optval on = if on then 1 else 0

-- `Acceptor(loop, listenAddr)`: the descriptor, and what was logged.
unfoldable pub acceptor_init : (socket bind : SysCall) → ℤ × List Message
unfolding create_nonblocking_or_die bind_address
acceptor_init socket bind =
    let fd = create_nonblocking_or_die socket in (fd.0, fd.1 ++ bind_address bind)

-- All of it: the constructor, and then `listen`.
unfoldable pub acceptor_open : (socket bind listen : SysCall) → ℤ × List Message
unfolding acceptor_init socket_listen
acceptor_open socket bind listen =
    let a = acceptor_init socket bind in (a.0, a.1 ++ socket_listen listen)

abbrev pub Succeeded : SysCall → Type 0
Succeeded (failed errno) = ⊥
Succeeded (returned value) = Unit

abbrev pub AllFatal : List Message → Type 0
AllFatal [] = Unit
AllFatal (m ∷ ms) = (level_of m ≡ level_fatal) × AllFatal ms

nonempty : {m : Message} {ms : List Message} → m ∷ ms ≡ [] → ⊥
nonempty h = cc

-- The acceptor's socket is opened with no message exactly if socket(2), bind(2) and listen(2) all
-- succeed. Each message is one of LOG_FATAL, and the acceptor goes on with the descriptor that
-- socket(2) returned, -1 included.
pub acceptor_open_lem :
    (socket bind listen : SysCall)
    → (((acceptor_open socket bind listen).1 ≡ [])
        ↔ (Succeeded socket × Succeeded bind × Succeeded listen))
      × AllFatal (acceptor_open socket bind listen).1
      × ((acceptor_open socket bind listen).0 ≡ int_of socket)
unfolding acceptor_open bind_or_die listen_or_die
acceptor_open_lem (returned s) (returned b) (returned l) =
    ((λ h. (tt, tt, tt), λ h. refl), tt, refl)
acceptor_open_lem (returned s) (returned b) (failed l) =
    ((λ h. absurd (nonempty h), λ h. absurd h.2), (refl, tt), refl)
acceptor_open_lem (returned s) (failed b) (returned l) =
    ((λ h. absurd (nonempty h), λ h. absurd h.1), (refl, tt), refl)
acceptor_open_lem (returned s) (failed b) (failed l) =
    ((λ h. absurd (nonempty h), λ h. absurd h.1), (refl, (refl, tt)), refl)
acceptor_open_lem (failed s) (returned b) (returned l) =
    ((λ h. absurd (nonempty h), λ h. absurd h.0), (refl, tt), refl)
acceptor_open_lem (failed s) (returned b) (failed l) =
    ((λ h. absurd (nonempty h), λ h. absurd h.0), (refl, (refl, tt)), refl)
acceptor_open_lem (failed s) (failed b) (returned l) =
    ((λ h. absurd (nonempty h), λ h. absurd h.0), (refl, (refl, tt)), refl)
acceptor_open_lem (failed s) (failed b) (failed l) =
    ((λ h. absurd (nonempty h), λ h. absurd h.0), (refl, (refl, (refl, tt))), refl)
