-- ===== src/TcpConnection/Defs.antt =====
-- The operations of mtnet/TcpConnection.cc, in the loop's thread. (`send` and `shutdown` from other
-- threads queue `sendInLoop` and `shutdownInLoop`, see `Threads`.)
use mtnet.Prelude.{
  ℕ, List, [], ◌∷◌, ◌++◌, Bool, true, false, not, ◌&&◌, ◌||◌, ltb, ◌==◌, if◌then◌else◌, length,
  take, drop, Result, ok, guard, ◌>>=◌, ◌>>◌, assertion,
}
use mtnet.Buffer
use mtnet.Buffer.{
  Buffer, Readv, ReadCount, error, received, readable_bytes, peek, append, retrieve, read_at,
  read_fd,
}
use mtnet.Channel.{
  any_bit, write_event, Interest, change, enable_reading, enable_writing, disable_writing,
  disable_all,
}

pub data State : Type 0 where
  connecting connected disconnecting disconnected : State

-- What a connection does outside itself: the bytes that the kernel took, the half-close of the
-- socket, the calls of its callbacks (that of `writeCompleteCallback_` is queued in the loop), the
-- removal of its channel, and the reports of errors.
pub data Effect : Type 0 where
  sent : List ℕ → Effect
  shut_write write_complete connection_callback message_callback close_callback : Effect
  remove_channel : Effect
  write_error handle_error : Effect

pub record TcpConnection : Type 0 where
  pub state : State
  pub events : ℕ
  pub has_write_complete : Bool
  pub input_buffer : Buffer
  pub output_buffer : Buffer
  pub effects : List Effect

-- `TcpConnection(loop, name, sockfd, ...)`; `setWriteCompleteCallback` sets the flag.
unfoldable pub init : Bool → TcpConnection
init has_write_complete = record {
  state = connecting;
  events = 0;
  has_write_complete = has_write_complete;
  input_buffer = Buffer.init;
  output_buffer = Buffer.init;
  effects = [];
}

-- What `write(2)` returns.
pub data Written : Type 0 where
  wrote : ℕ → Written
  failed : ℕ → Written

abbrev pub is_connected : State → Bool
is_connected connected = true
is_connected _ = false

abbrev pub is_disconnecting : State → Bool
is_disconnecting disconnecting = true
is_disconnecting _ = false

abbrev pub is_connecting : State → Bool
is_connecting connecting = true
is_connecting _ = false

abbrev pub is_writing : TcpConnection → Bool
is_writing c = any_bit c.events write_event

abbrev pub emit : Effect → TcpConnection → TcpConnection
emit e c = record c { effects = c.effects ++ e ∷ [] }

abbrev pub emit_if : Bool → Effect → TcpConnection → TcpConnection
emit_if true e c = emit e c
emit_if false e c = c

-- The channel's new wants; the `update()` that follows is `set_interest` of `Poller`, and can stop at an
-- assertion there.
abbrev pub want : Interest → TcpConnection → TcpConnection
want i c = record c { events = change i c.events }

-- EWOULDBLOCK of Linux.
abbrev pub ewouldblock : ℕ
ewouldblock = 11

-- The direct write of `sendInLoop`: the connection, and `nwrote`.
unfoldable pub write_directly : Written → List ℕ → TcpConnection → TcpConnection × ℕ
write_directly (wrote n) message c = (
  emit_if (not (ltb n (length message)) && c.has_write_complete) write_complete
      (emit (sent (take n message)) c),
  n,
)
write_directly (failed errno) message c = (emit_if (not (errno == ewouldblock)) write_error c, 0)

-- The first half of `sendInLoop`: it writes directly if nothing waits to be written.
unfoldable pub try_write : Written → List ℕ → TcpConnection → TcpConnection × ℕ
unfolding write_directly
try_write w message c =
    if not (is_writing c) && readable_bytes c.output_buffer == 0
    then write_directly w message c
    else (c, 0)

-- The rest of `sendInLoop`, after `nwrote` bytes, for a channel whose `update()` succeeds; `Polled` has
-- it with that `update()`.
unfoldable pub buffer_rest : ℕ → List ℕ → TcpConnection → Result TcpConnection
buffer_rest nwrote message c =
    if ltb nwrote (length message)
    then append c.output_buffer (drop nwrote message) >>= (λ b.
      let d = record c { output_buffer = b } in
      ok (if not (is_writing d) then want enable_writing d else d))
    else ok c

unfoldable pub send_in_loop : Written → List ℕ → TcpConnection → Result TcpConnection
unfolding try_write buffer_rest
send_in_loop w message c = let r = try_write w message c in buffer_rest r.1 message r.0

unfoldable pub send : Written → List ℕ → TcpConnection → Result TcpConnection
unfolding send_in_loop
send w message c = if is_connected c.state then send_in_loop w message c else ok c

unfoldable pub shutdown_in_loop : TcpConnection → TcpConnection
shutdown_in_loop c = if not (is_writing c) then emit shut_write c else c

unfoldable pub shutdown : TcpConnection → TcpConnection
unfolding shutdown_in_loop
shutdown c =
    if is_connected c.state then shutdown_in_loop (record c { state = disconnecting }) else c

-- `handleWrite` once the output buffer is empty.
unfoldable pub write_done : TcpConnection → TcpConnection
unfolding shutdown_in_loop
write_done c =
    let d = emit_if c.has_write_complete write_complete (want disable_writing c) in
    if is_disconnecting c.state then shutdown_in_loop d else d

-- `handleWrite` after `n` bytes were written.
unfoldable pub write_some : ℕ → TcpConnection → Result TcpConnection
unfolding write_done
write_some n c = do
  bytes ← read_at c.output_buffer.buffer (peek c.output_buffer) n
  b ← retrieve c.output_buffer n
  let d = emit (sent bytes) (record c { output_buffer = b })
  ok (if readable_bytes b == 0 then write_done d else d)

unfoldable pub write_ready : Written → TcpConnection → Result TcpConnection
unfolding write_some
write_ready (wrote n) c = if ltb 0 n then write_some n c else ok (emit write_error c)
write_ready (failed errno) c = ok (emit write_error c)

unfoldable pub handle_write : Written → TcpConnection → Result TcpConnection
unfolding write_ready
handle_write w c = if is_writing c then write_ready w c else ok c

unfoldable pub handle_close : TcpConnection → Result TcpConnection
handle_close c = do
  guard (is_connected c.state || is_disconnecting c.state) assertion
  ok (emit close_callback (want disable_all c))

unfoldable pub after_read : ReadCount → TcpConnection → Result TcpConnection
unfolding handle_close
after_read (received n) c = if ltb 0 n then ok (emit message_callback c) else handle_close c
after_read (error errno) c = ok (emit handle_error c)

unfoldable pub handle_read : Readv → TcpConnection → Result TcpConnection
unfolding after_read
handle_read r c =
    read_fd r c.input_buffer >>= (λ p. after_read p.0 (record c { input_buffer = p.1 }))

unfoldable pub connect_established : TcpConnection → Result TcpConnection
connect_established c = do
  guard (is_connecting c.state) assertion
  ok (emit connection_callback (want enable_reading (record c { state = connected })))

unfoldable pub connect_destroyed : TcpConnection → Result TcpConnection
connect_destroyed c = do
  guard (is_connected c.state || is_disconnecting c.state) assertion
  ok (
      emit remove_channel
        (emit connection_callback (want disable_all (record c { state = disconnected }))))
