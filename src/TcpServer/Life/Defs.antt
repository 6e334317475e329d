-- ===== src/TcpServer/Life/Defs.antt =====
-- The server of mtnet/TcpServer.cc with its connections of mtnet/TcpConnection.cc: what the base
-- loop and the loops of the connections run, in any order. The functors that the server and the
-- connections hand to the loops wait in two lists; a loop may run any of them, at once
-- (`runInLoop` in the loop's own thread) or later, so that every order of the loops' queues is
-- among the runs.
use mtnet.Prelude.{
  ℕ, ◌-◌, ◌≡◌, List, ◌++◌, Bool, true, false, not, ◌&&◌, ◌==◌, if◌then◌else◌, none, some, Result,
  ok, ◌>>=◌, replicate,
}
use mtnet.Prelude.Maps.{update}
use mtnet.Prelude.Bags.{count, take_at}
use mtnet.Buffer.{Readv}
use mtnet.Channel.{any_bit}
use mtnet.TcpConnection.Defs.{
  TcpConnection, State, disconnecting, Effect, close_callback, Written, is_connected, send,
  send_in_loop, shutdown, shutdown_in_loop, handle_write, handle_read, handle_close,
}
use mtnet.TcpConnection.Defs as Connected
use mtnet.TcpConnection.Wiring.{handlers}
use mtnet.TcpServer.Defs.{
  TcpServer, Connection, Request, connect_established, connect_destroyed, new_connection,
  remove_connection_in_loop,
}

-- A connection, and whether poll(2) looks at its channel: it does once the poller knows the
-- channel, and no more once an update has found no wanted event, since the poller leaves the
-- entry's descriptor negative then (`Poller.Interests`).
pub record Polled : Type 0 where
  pub tcp : TcpConnection
  pub polled : Bool

-- The server, with the requests that its loops have not yet run; the connections by their
-- addresses; and the calls of `removeConnectionInLoop` that the base loop has not yet run.
pub record World : Type 0 where
  pub server : TcpServer
  pub connection : ℕ → Polled
  pub removals : List ℕ

-- What else happens to a connection: its user's calls, in the loop's thread or queued from another
-- (`begins_shutdown` is the first half of `shutdown` there), and the events of its channel.
pub data Call : Type 0 where
  sends sends_in_loop : Written → List ℕ → Call
  shuts_down begins_shutdown shuts_down_in_loop : Call
  happens : Readv → Written → (revents : ℕ) → Call

-- `shutdown` in another thread: its test of the state and its store, as one step. (The source does not
-- synchronise the two; that a `connectDestroyed` of the loop's thread comes between them is left out.)
unfoldable pub begin_shutdown : TcpConnection → TcpConnection
begin_shutdown c = if is_connected c.state then record c { state = disconnecting } else c

-- The events reach the connection as its constructor wired the channel.
unfoldable pub run_call : Call → TcpConnection → Result TcpConnection
unfolding send send_in_loop shutdown shutdown_in_loop begin_shutdown handle_write handle_read
    handle_close
run_call (sends w m) c = send w m c
run_call (sends_in_loop w m) c = send_in_loop w m c
run_call shuts_down c = ok (shutdown c)
run_call begins_shutdown c = ok (begin_shutdown c)
run_call shuts_down_in_loop c = ok (shutdown_in_loop c)
run_call (happens r w revents) c = handlers r w revents c

-- A POLLHUP comes with POLLIN, or alone but for POLLOUT and errors. (POLLRDHUP is not asked for.)
abbrev pub is_answer : ℕ → Bool
is_answer revents =
    not ((any_bit revents 0x10 && not (any_bit revents 0x01)) && any_bit revents 0x2003)

-- Events need a channel that poll(2) looks at; the user may call at any time.
abbrev pub is_allowed : Call → Polled → Bool
is_allowed (happens r w revents) p = p.polled && is_answer revents
is_allowed _ p = true

abbrev pub is_close : Effect → Bool
is_close close_callback = true
is_close _ = false

-- How often `closeCallback_`, which is `TcpServer::removeConnection`, was called.
abbrev pub closes : TcpConnection → ℕ
closes c = count is_close c.effects

-- The connection after a call: the poller sees what its channel wants now.
abbrev pub updated : Polled → TcpConnection → Polled
updated p c = record { tcp = c; polled = p.polled && not (c.events == 0) }

-- A call on the connection at `address`; each call of `closeCallback_` is one of
-- `removeConnection`.
unfoldable pub act : Call → ℕ → World → Result World
unfolding run_call
act k address w = do
  c ← run_call k (w.connection address).tcp
  ok (record w {
    connection = update w.connection address (updated (w.connection address) c);
    removals = w.removals ++ replicate (closes c - closes (w.connection address).tcp) address;
  })

-- `newConnection`, with the connection that `new` makes at `address`.
unfoldable pub accept : (ℕ → List ℕ) → Bool → ℕ → ℕ → World → Result World
unfolding new_connection Connected.init
accept format has_write_complete address sockfd w = do
  s ← new_connection format address sockfd w.server
  ok (record w {
    server = s;
    connection =
        update w.connection address
          (record { tcp = Connected.init has_write_complete; polled = false });
  })

-- A loop runs what the server handed to it.
unfoldable pub run_request : Request → World → Result World
unfolding Connected.connect_established Connected.connect_destroyed
run_request (connect_established loop address) w = do
  c ← Connected.connect_established (w.connection address).tcp
  ok (record w { connection = update w.connection address (record { tcp = c; polled = true }) })
run_request (connect_destroyed loop address) w = do
  c ← Connected.connect_destroyed (w.connection address).tcp
  ok (record w { connection = update w.connection address (record { tcp = c; polled = false }) })

abbrev pub without_request : List Request → World → World
without_request rest w = record w { server = record w.server { requests = rest } }

-- The base loop runs a `removeConnectionInLoop`.
unfoldable pub run_removal : ℕ → World → Result World
unfolding remove_connection_in_loop
run_removal address w = do
  s ← remove_connection_in_loop address w.server
  ok (record w { server = s })

abbrev pub without_removal : List ℕ → World → World
without_removal rest w = record w { removals = rest }

module _ (format : ℕ → List ℕ) where
  -- One turn of a loop, or of a thread that uses a connection.
  pub data Step (w : World) : World → Type 0 where
    accepts :
        (has_write_complete : Bool) (address sockfd : ℕ) {v : World}
        → w.server.connection_at address ≡ none
        → accept format has_write_complete address sockfd w ≡ ok v
        → Step w v
    runs :
        (i : ℕ) (r : Request) (rest : List Request) {v : World}
        → take_at i w.server.requests ≡ some (r, rest)
        → run_request r (without_request rest w) ≡ ok v
        → Step w v
    removes :
        (i address : ℕ) (rest : List ℕ) {v : World}
        → take_at i w.removals ≡ some (address, rest)
        → run_removal address (without_removal rest w) ≡ ok v
        → Step w v
    calls :
        (k : Call) (address : ℕ) (c : Connection) (d : TcpConnection) {v : World}
        → w.server.connection_at address ≡ some c
        → run_call k (w.connection address).tcp ≡ ok d
        → is_allowed k (w.connection address) ≡ true
        → act k address w ≡ ok v
        → Step w v

  pub data Steps (w : World) : World → Type 0 where
    here : Steps w w
    next : {u v : World} → Steps w u → Step u v → Steps w v
