-- ===== src/TcpConnection/Wiring.antt =====
-- The constructor of mtnet/TcpConnection.cc makes the handlers of the connection the callbacks of
-- its channel; what a `handelEvent` of that channel then does to the connection.
mod Tests
use mtnet.Prelude.{ℕ, zero, suc, ap, ◌∙◌, Bool, true, false, not, ◌&&◌, Result, ok, ◌>>=◌}
use mtnet.Prelude.Int.{ℤ}
use mtnet.Buffer.{Readv}
use mtnet.Channel.{
  Channel, init, any_bit, set_event_handling, on_error, on_close, on_read, on_write,
}
use mtnet.Channel.Setters.{
  set_read_callback, set_write_callback, set_error_callback, set_close_callback,
}
use mtnet.TcpConnection.Defs.{
  TcpConnection, Written, emit, handle_error, handle_read, handle_write, handle_close,
}

-- The four members that are bound.
pub data Handler : Type 0 where
  on_readable on_writable on_failed on_hung_up : Handler

-- A callback is known by its number.
abbrev pub number : Handler → ℕ
number on_readable = 0
number on_writable = 1
number on_failed = 2
number on_hung_up = 3

-- The channel of `TcpConnection(loop, name, sockfd, ...)`.
unfoldable pub channel : ℕ → ℤ → Channel
unfolding init set_read_callback set_write_callback set_error_callback set_close_callback
channel loop sockfd =
    let reads = set_read_callback (number on_readable) (init loop sockfd) in
    let writes = set_write_callback (number on_writable) reads in
    let fails = set_error_callback (number on_failed) writes in
    set_close_callback (number on_hung_up) fails

-- A channel and its connection, which a failed assertion of a handler stops.
pub record Wired : Type 0 where
  pub wire : Channel
  pub connection : Result TcpConnection

abbrev pub self : Wired → Channel
self w = w.wire

abbrev pub store : Channel → Wired → Wired
store c w = record w { wire = c }

-- `readv` and `written` are what the system calls return, should the handlers make them.
module _ (readv : Readv) (written : Written) where
  -- The member of a number.
  abbrev pub handle : ℕ → TcpConnection → Result TcpConnection
  handle zero c = handle_read readv c
  handle (suc zero) c = handle_write written c
  handle (suc (suc zero)) c = ok (emit handle_error c)
  handle (suc (suc (suc n))) c = handle_close c

  abbrev pub call : ℕ → Wired → Wired
  call f w = record w { connection = w.connection >>= handle f }

  abbrev pub call_read : ℕ → ℤ → Wired → Wired
  call_read f receive_time w = call f w

  abbrev pub when :
      Bool → (TcpConnection → Result TcpConnection) → Result TcpConnection → Result TcpConnection
  when true f r = r >>= f
  when false f r = r

  -- The handlers that the bits call for, one after the other.
  abbrev pub handlers : ℕ → TcpConnection → Result TcpConnection
  handlers revents c = when (any_bit revents 0x04) (handle_write written) (
      when (any_bit revents 0x2003) (handle_read readv) (
        when (any_bit revents 0x10 && not (any_bit revents 0x01)) handle_close
          (when (any_bit revents 0x28) (λ d. ok (emit handle_error d)) (ok c))))
