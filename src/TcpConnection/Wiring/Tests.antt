-- ===== src/TcpConnection/Wiring/Tests.antt =====
-- Events at a wired channel.
use mtnet.Prelude.{◌≡◌, refl, false, [], ◌∷◌, ok}
use mtnet.Buffer.{Readv}
use mtnet.TcpConnection.Defs.{
  TcpConnection, connected, close_callback, wrote, init, handle_close, handle_write,
}
use mtnet.TcpConnection.Wiring.{handlers}

abbrev up : TcpConnection
up = record (init false) { state = connected; events = 3 }

-- POLLHUP and POLLOUT.
hangs_up :
    handlers (Readv.stored []) (wrote 0) 0x14 up
    ≡ ok (record up { events = 0; effects = close_callback ∷ [] })
unfolding init handle_close handle_write mtnet.Channel.change
hangs_up = refl
