-- ===== src/Sockets/Tests.antt =====
-- Theorems about sockets at concrete inputs.
use mtnet.Prelude.{
  ℕ, ◌≡◌, ◌<◌, ◌⊎◌, ◌==◌, refl, List, [], ◌∷◌, ◌++◌, Option, none, some, ok, if◌then◌else◌, arith,
}
use mtnet.Prelude.Int.{negsuc}
use mtnet.Prelude.Decimal.{decimal}
use mtnet.TcpServer
use mtnet.TcpServer.Defs.{TcpServer, eqb_name}
use mtnet.Sockets.ByteOrder.{
  little, big, bits32, host_to_network16, store, range, host_to_network, network_to_host,
  network_to_host-host_to_network,
}
use mtnet.Sockets.Defs.{
  SockaddrIn, accept_failed, Message, unexpected_error, unknow_error, is_unexpected, socket_accept,
  create_nonblocking_or_die, create_failed, failed, inet_address, address_to_host_port, zeroed,
}
use mtnet.Sockets.Accept.{IsTemporary, handle_read-socket_accept}
use mtnet.Sockets.Address.{host_and_port, HasNoColon, address_to_host_port-inet_address}

-- Port 80 on a little-endian host.
port_80 : host_to_network16 little 80 ≡ 20480
unfolding host_to_network16
port_80 = refl

-- The function that is to die returns -1.
no_socket : create_nonblocking_or_die (failed 24) ≡ (negsuc 0, create_failed ∷ [])
unfolding create_nonblocking_or_die
no_socket = refl

network_to_host-host_to_network_example :
    (host_to_network bits32 little 305419896 < range 4)
    × (store little 4 (host_to_network bits32 little 305419896) ≡ store big 4 305419896)
    × (network_to_host bits32 little (host_to_network bits32 little 305419896) ≡ 305419896)
    × (host_to_network bits32 little (network_to_host bits32 little 305419896) ≡ 305419896)
network_to_host-host_to_network_example =
    network_to_host-host_to_network bits32 little 305419896 (omega arith)

-- An error that is not one of those that `accept` knows.
abbrev server : TcpServer
unfolding TcpServer.Defs.init
server = TcpServer.Defs.init 1 (83 ∷ [])

handle_read-socket_accept_example :
    let r = socket_accept (accept_failed 110) 0 5 zeroed in
    (r.0 ≡ zeroed)
    × (TcpServer.Defs.handle_read (λ n. n ∷ []) 9 (r.1).connfd server
        ≡ ok (record server { closed = server.closed ++ negsuc 0 ∷ [] }))
    × ((IsTemporary 110 × ((r.1).errno ≡ 110) × ((r.1).messages ≡ Message.accept_failed ∷ []))
        ⊎ ((¬ IsTemporary 110)
            × ((r.1).errno ≡ 5)
            × ((r.1).messages
                ≡ Message.accept_failed
                  ∷ (if is_unexpected 110 then unexpected_error 110 else unknow_error 110)
                  ∷ [])))
handle_read-socket_accept_example = handle_read-socket_accept 110 0 5 zeroed (λ n. n ∷ []) 9 server

-- "127.0.0.1" is the only host that these know.
abbrev loopback : List ℕ
loopback = 49 ∷ 50 ∷ 55 ∷ 46 ∷ 48 ∷ 46 ∷ 48 ∷ 46 ∷ 49 ∷ []

abbrev pton : List ℕ → Option ℕ
pton name = if eqb_name name loopback then some 16777343 else none

abbrev ntop : ℕ → Option (List ℕ)
ntop a = if a == 16777343 then some loopback else none

-- Nine characters, none of them a colon.
loopback-HasNoColon : HasNoColon loopback
loopback-HasNoColon = (
  (λ e. absurd (omega (arith, e))),
  (
    (λ e. absurd (omega (arith, e))),
    (
      (λ e. absurd (omega (arith, e))),
      (
        (λ e. absurd (omega (arith, e))),
        (
          (λ e. absurd (omega (arith, e))),
          (
            (λ e. absurd (omega (arith, e))),
            (
              (λ e. absurd (omega (arith, e))),
              ((λ e. absurd (omega (arith, e))), ((λ e. absurd (omega (arith, e))), tt)),
            ),
          ),
        ),
      ),
    ),
  ),
)

address_to_host_port-inet_address_example :
    (addr : SockaddrIn) × (inet_address pton ntop little loopback 8080 ≡ (addr, []))
    × (addr.sin_family ≡ 2)
    × (addr.sin_addr ≡ 16777343)
    × (address_to_host_port pton ntop little addr ≡ loopback ++ 58 ∷ decimal 8080)
    × (let read = host_and_port (address_to_host_port pton ntop little addr) in
        inet_address pton ntop little read.0 read.1 ≡ (addr, []))
address_to_host_port-inet_address_example =
    address_to_host_port-inet_address pton ntop little loopback 16777343 8080 (omega arith) refl
      refl (omega arith) loopback-HasNoColon
