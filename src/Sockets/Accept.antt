-- ===== src/Sockets/Accept.antt =====
-- What a failed `accept` leaves, from mtnet/SocketsOps.cc up to the server behind the acceptor.
use mtnet.Prelude.{
  ℕ, ◌≡◌, ◌⊎◌, refl, List, [], ◌∷◌, ◌++◌, true, false, Bool-cases, inl, inr, ok, if◌then◌else◌,
  arith,
}
use mtnet.Prelude.Int.{negsuc}
use mtnet.Sockets.Defs.{
  accept_failed, SockaddrIn, Message, unexpected_error, unknow_error, is_temporary, is_unexpected,
  accept, socket_accept,
}
use mtnet.TcpServer
use mtnet.TcpServer.Defs.{TcpServer}

-- The errors that a connection can cause, or that pass.
abbrev pub IsTemporary : ℕ → Type 0
IsTemporary e = (e ≡ 11) ⊎ (e ≡ 103) ⊎ (e ≡ 4) ⊎ (e ≡ 71) ⊎ (e ≡ 1) ⊎ (e ≡ 24)

temporary : (e : ℕ) → is_temporary e ≡ true → IsTemporary e
temporary e h = ground arith

not-IsTemporary : (e : ℕ) → is_temporary e ≡ false → ¬ IsTemporary e
not-IsTemporary e h t = ground arith

-- Whatever the error of accept4(2): `Socket::accept` returns -1 and leaves `*peeraddr` alone; of the
-- errors that pass, `errno` is what accept4 set, whatever logging did to it, and one message is
-- logged; of any other, `errno` is what logging left, and a second message is logged, but the
-- program goes on. The acceptor that gets the result makes no connection and hands no request to a
-- loop: the server is as before, but that -1 was given to `sockets::close`.
pub handle_read-socket_accept :
    (errno before logged : ℕ) (peer : SockaddrIn) (format : ℕ → List ℕ) (address : ℕ)
    (s : TcpServer)
    → let r = socket_accept (accept_failed errno) before logged peer in
      (r.0 ≡ peer)
      × (TcpServer.Defs.handle_read format address (r.1).connfd s
          ≡ ok (record s { closed = s.closed ++ negsuc 0 ∷ [] }))
      × ((IsTemporary errno × ((r.1).errno ≡ errno) × ((r.1).messages ≡ Message.accept_failed ∷ []))
          ⊎ ((¬ IsTemporary errno)
              × ((r.1).errno ≡ logged)
              × ((r.1).messages
                  ≡ Message.accept_failed
                    ∷ (if is_unexpected errno then unexpected_error errno else unknow_error errno)
                    ∷ [])))
unfolding socket_accept accept TcpServer.Defs.handle_read
handle_read-socket_accept errno before logged peer format address s =
    elim (Bool-cases (is_temporary errno)) [
      | inl t ↦ rw t (refl, refl, inl (temporary errno t, refl, refl))
      | inr t ↦ rw t (refl, refl, inr (not-IsTemporary errno t, refl, refl))
    ]
