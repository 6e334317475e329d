-- ===== src/Sockets/Defs.antt =====
-- The functions of mtnet/SocketsOps.cc, mtnet/Socket.cc and mtnet/InetAddress.cc. What a system call
-- returns is an argument. A function that reports an error has the messages that it logs as a result;
-- none of them stops the program.
use mtnet.Prelude.{
  ℕ, ◌-◌, List, [], ◌∷◌, ◌++◌, Bool, true, false, ◌==◌, ◌||◌, if◌then◌else◌, take, Option, none,
  some,
}
use mtnet.Prelude.Int.{ℤ, pos, negsuc}
use mtnet.Prelude.Decimal.{decimal}
use mtnet.Logging.{LogLevel, level_error, level_fatal}
use mtnet.Sockets.ByteOrder.{Endian, host_to_network16, host_to_network32, network_to_host16}

-- A system call that returns -1 and sets `errno`, or returns a value.
pub data SysCall : Type 0 where
  failed : (errno : ℕ) → SysCall
  returned : (value : ℕ) → SysCall

abbrev pub int_of : SysCall → ℤ
int_of (failed errno) = negsuc 0
int_of (returned value) = pos value

-- `sin_port` and `sin_addr` are in network byte order.
pub record SockaddrIn : Type 0 where
  pub sin_family : ℕ
  pub sin_port : ℕ
  pub sin_addr : ℕ

-- `bzero`.
abbrev pub zeroed : SockaddrIn
zeroed = record { sin_family = 0; sin_port = 0; sin_addr = 0 }

pub data Message : Type 0 where
  create_failed bind_failed listen_failed accept_failed : Message
  unexpected_error unknow_error : (errno : ℕ) → Message
  close_failed shutdown_failed from_host_port_failed get_local_addr_failed : Message

-- The function that a message is logged with.
abbrev pub level_of : Message → LogLevel
level_of create_failed = level_fatal
level_of bind_failed = level_fatal
level_of listen_failed = level_fatal
level_of accept_failed = level_error
level_of (unexpected_error errno) = level_fatal
level_of (unknow_error errno) = level_fatal
level_of close_failed = level_error
level_of shutdown_failed = level_error
level_of from_host_port_failed = level_error
level_of get_local_addr_failed = level_error

-- A message if a call failed.
abbrev on_failure : SysCall → Message → List Message
on_failure (failed errno) m = m ∷ []
on_failure (returned value) m = []

unfoldable pub create_nonblocking_or_die : SysCall → ℤ × List Message
create_nonblocking_or_die socket = (int_of socket, on_failure socket create_failed)

unfoldable pub bind_or_die : SysCall → List Message
bind_or_die bind = on_failure bind bind_failed

unfoldable pub listen_or_die : SysCall → List Message
listen_or_die listen = on_failure listen listen_failed

unfoldable pub close : SysCall → List Message
close r = on_failure r close_failed

unfoldable pub shutdown_write : SysCall → List Message
shutdown_write r = on_failure r shutdown_failed

-- The branches of the `switch` of `accept`, by Linux's numbers: EAGAIN, ECONNABORTED, EINTR, EPROTO,
-- EPERM, EMFILE; and EBADF, EFAULT, EINVAL, ENFILE, ENOBUFS, ENOMEM, ENOTSOCK, EOPNOTSUPP.
abbrev pub is_temporary : ℕ → Bool
is_temporary e = e == 11 || e == 103 || e == 4 || e == 71 || e == 1 || e == 24

abbrev pub is_unexpected : ℕ → Bool
is_unexpected e =
    e == 9 || e == 14 || e == 22 || e == 23 || e == 105 || e == 12 || e == 88 || e == 95

-- What `accept4` does: it fails, or returns a descriptor and fills in the address.
pub data Accept : Type 0 where
  accept_failed : (errno : ℕ) → Accept
  accepted : (fd : ℕ) (peer : SockaddrIn) → Accept

-- What `accept` leaves: its result, `*addr`, `errno`, and the messages.
pub record Accepted : Type 0 where
  pub connfd : ℤ
  pub addr : SockaddrIn
  pub errno : ℕ
  pub messages : List Message

-- `accept`; `before` is `errno` before the call, and `logged` what the logging of an error leaves in it.
unfoldable pub accept : Accept → (before logged : ℕ) → SockaddrIn → Accepted
accept (accepted fd peer) before logged addr = record {
  connfd = pos fd;
  addr = peer;
  errno = before;
  messages = [];
}
accept (accept_failed e) before logged addr =
    if is_temporary e
    then record { connfd = negsuc 0; addr = addr; errno = e; messages = Message.accept_failed ∷ [] }
    else record {
      connfd = negsuc 0;
      addr = addr;
      errno = logged;
      messages =
          Message.accept_failed
          ∷ (if is_unexpected e then unexpected_error e else unknow_error e)
          ∷ [];
    }

-- `Socket::accept`: the result, `*peeraddr`, and what `sockets::accept` leaves.
abbrev pub is_descriptor : ℤ → Bool
is_descriptor (pos n) = true
is_descriptor (negsuc n) = false

unfoldable pub socket_accept : Accept → (before logged : ℕ) → SockaddrIn → SockaddrIn × Accepted
unfolding accept
socket_accept r before logged peeraddr =
    let a = accept r before logged zeroed in
    (if is_descriptor a.connfd then a.addr else peeraddr, a)

-- `getLocalAddr`; `name` is what `getsockname` writes if it succeeds.
unfoldable pub get_local_addr : Option SockaddrIn → SockaddrIn × List Message
get_local_addr none = (zeroed, get_local_addr_failed ∷ [])
get_local_addr (some name) = (name, [])

-- `getSocketError`; the value of `getsockopt` is `optval`.
unfoldable pub get_socket_error : SysCall → ℕ
get_socket_error (failed errno) = errno
get_socket_error (returned optval) = optval

-- `inet_pton` and `inet_ntop` for AF_INET are parameters.
module _ (inet_pton : List ℕ → Option ℕ) (inet_ntop : ℕ → Option (List ℕ)) (e : Endian) where
  abbrev host : Option (List ℕ) → List ℕ
  host none = 73 ∷ 78 ∷ 86 ∷ 65 ∷ 76 ∷ 73 ∷ 68 ∷ []
  host (some name) = name

  -- `toHostPort`, with a buffer of `size` characters.
  unfoldable pub to_host_port : (size : ℕ) → SockaddrIn → List ℕ
  unfolding network_to_host16
  to_host_port size addr =
      take (size - 1)
        (host (inet_ntop addr.sin_addr) ++ 58 ∷ decimal (network_to_host16 e addr.sin_port))

  abbrev with_addr : Option ℕ → SockaddrIn → SockaddrIn × List Message
  with_addr none addr = (addr, from_host_port_failed ∷ [])
  with_addr (some a) addr = (record addr { sin_addr = a }, [])

  unfoldable pub from_host_port : List ℕ → (port : ℕ) → SockaddrIn → SockaddrIn × List Message
  unfolding host_to_network16
  from_host_port ip port addr =
      with_addr (inet_pton ip) (record addr { sin_family = 2; sin_port = host_to_network16 e port })

  -- The two constructors of `InetAddress`, and `InetAddress::toHostPort`.
  unfoldable pub inet_address_any : (port : ℕ) → SockaddrIn
  unfolding host_to_network16 host_to_network32
  inet_address_any port = record {
    sin_family = 2;
    sin_addr = host_to_network32 e 0;
    sin_port = host_to_network16 e port;
  }

  unfoldable pub inet_address : List ℕ → (port : ℕ) → SockaddrIn × List Message
  unfolding from_host_port
  inet_address ip port = from_host_port ip port zeroed

  unfoldable pub address_to_host_port : SockaddrIn → List ℕ
  unfolding to_host_port
  address_to_host_port addr = to_host_port 32 addr
