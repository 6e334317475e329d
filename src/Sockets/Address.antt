-- ===== src/Sockets/Address.antt =====
-- Addresses of mtnet/InetAddress.cc: from a host and a port, and back to text.
use mtnet.Prelude.{
  ℕ, ◌≡◌, ◌<◌, ◌≤◌, refl, List, [], ◌∷◌, ◌++◌, length, length-append, take_all, take, ◌==◌, ◌≢◌,
  false, if◌then◌else◌, Option, some, arith,
}
use mtnet.Prelude.Decimal.{decimal, length-decimal, read_from, read_from-decimal}
use mtnet.Sockets.ByteOrder.{
  Endian, bits16, range, bytes, network_to_host16, host_to_network16,
  network_to_host-host_to_network,
}
use mtnet.Sockets.Defs.{SockaddrIn, inet_address, address_to_host_port}

-- The host and the port of a text: what stands before its first colon, and the value of the digits
-- after it.
abbrev pub host_and_port : List ℕ → List ℕ × ℕ
host_and_port [] = ([], 0)
host_and_port (c ∷ cs) =
    let rest = host_and_port cs in if c == 58 then ([], read_from 0 cs) else (c ∷ rest.0, rest.1)

abbrev pub HasNoColon : List ℕ → Type 0
HasNoColon [] = Unit
HasNoColon (c ∷ cs) = (c ≢ 58) × HasNoColon cs

host_and_port-colon :
    (ip cs : List ℕ) → HasNoColon ip → host_and_port (ip ++ 58 ∷ cs) ≡ (ip, read_from 0 cs)
host_and_port-colon [] cs h = refl
host_and_port-colon (c ∷ ip) cs (other, rest) =
    let differ : (c == 58) ≡ false = ground arith in
    rw (differ, host_and_port-colon ip cs rest) refl

module _ (inet_pton : List ℕ → Option ℕ) (inet_ntop : ℕ → Option (List ℕ)) (e : Endian)
    (ip : List ℕ) (a port : ℕ) (small : port < range (bytes bits16)) where
  -- The port of an address is read back as it was given, on a host of either byte order.
  port-host : network_to_host16 e (host_to_network16 e port) ≡ port
  port-host = (network_to_host-host_to_network bits16 e port small).2

  -- If `inet_pton` reads a host of at most 15 characters, and `inet_ntop` prints what it read in the
  -- same way: the `InetAddress` of that host and of a port of 16 bits is built with no error, is an
  -- AF_INET one, and `toHostPort` prints the whole of it, the host, a colon and the port, in its buffer
  -- of 32 characters. If the host has no colon, then from the host and the port that are read in the
  -- printed text, up to its first colon and after it, the same address is built again.
  pub address_to_host_port-inet_address :
      inet_pton ip ≡ some a
      → inet_ntop a ≡ some ip
      → length ip ≤ 15
      → HasNoColon ip
      → (addr : SockaddrIn) × (inet_address inet_pton inet_ntop e ip port ≡ (addr, []))
        × (addr.sin_family ≡ 2)
        × (addr.sin_addr ≡ a)
        × (address_to_host_port inet_pton inet_ntop e addr ≡ ip ++ 58 ∷ decimal port)
        × (let read = host_and_port (address_to_host_port inet_pton inet_ntop e addr) in
            inet_address inet_pton inet_ntop e read.0 read.1 ≡ (addr, []))
  unfolding inet_address address_to_host_port
  address_to_host_port-inet_address reads prints short no_colon =
      let built : SockaddrIn = record {
        sin_family = 2;
        sin_port = host_to_network16 e port;
        sin_addr = a;
      } in
      let fits : length (ip ++ 58 ∷ decimal port) ≤ 31 = omega (
        arith,
        length-append ip (58 ∷ decimal port),
        length-decimal port 4 (omega (arith, small)),
      ) in
      let printed : take 31 (ip ++ 58 ∷ decimal port) ≡ ip ++ 58 ∷ decimal port =
        take_all 31 (ip ++ 58 ∷ decimal port) fits in
      (
        built,
        rw reads refl,
        refl,
        refl,
        rw (prints, port-host) printed,
        rw
            (
              prints,
              port-host,
              printed,
              host_and_port-colon ip (decimal port) no_colon,
              read_from-decimal port,
              reads,
            )
            refl,
      )
