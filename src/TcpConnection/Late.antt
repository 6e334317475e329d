-- ===== src/TcpConnection/Late.antt =====
-- A `sendInLoop` that another thread queued while the connection was up, and that runs after the
-- connection was half-closed or removed: mtnet/TcpConnection.cc tests the state in `send` only.
use mtnet.Prelude.{
  ℕ, ◌≡◌, ◌<◌, refl, ap, ◌∙◌, List, [], ◌∷◌, ◌++◌, true, false, not, length, drop, take,
  length-drop, ok, err, assertion, some, lt→ltb, arith,
}
use mtnet.Buffer.{Buffer}
use mtnet.Buffer.Laws
use mtnet.Buffer.Laws.{contents}
use mtnet.Buffer.Append.{append_lem}
use mtnet.Channel.{none_event, change, enable_writing, disable_all}
use mtnet.TcpConnection.Defs.{
  TcpConnection, connected, disconnecting, disconnected, is_connected, sent, shut_write,
  connection_callback, remove_channel, wrote, is_writing, send_in_loop, shutdown, shutdown_in_loop,
  try_write, write_directly,
}
use mtnet.Poller.Defs as Poller
use mtnet.Poller.Defs.{Poller, set_interest}
use mtnet.Poller.Invariant.{IsConsistent}
use mtnet.Poller.Unregister.{set_interest-remove_channel}
use mtnet.TcpConnection.Polled.{
  buffer_rest_polled, send_in_loop_polled, connect_destroyed_polled, send_in_loop-registered,
}
use mtnet.TcpConnection.Stream.{is_nil, IsValid, is_writing-waiting, readable-is_nil}
use mtnet.TcpConnection.Send.{HasRoom}

-- A direct write of part of a message, whatever the state.
sends_part :
    (n : ℕ) (message : List ℕ) (d : TcpConnection)
    → Laws.IsValid d.output_buffer
    → contents d.output_buffer ≡ []
    → is_writing d ≡ false
    → n < length message
    → HasRoom d (length message)
    → (b : Buffer) × (send_in_loop (wrote n) message d
        ≡ ok (record d {
          output_buffer = b;
          events = change enable_writing d.events;
          effects = d.effects ++ sent (take n message) ∷ [];
        }))
      × (contents b ≡ drop n message)
unfolding send_in_loop
sends_part n message d v none_wait idle part room =
    let empty = readable-is_nil d.output_buffer v ∙ ap is_nil none_wait in
    let (b, done, valid, bytes) =
      append_lem d.output_buffer (drop n message) v (omega (arith, length-drop n message)) in
    (
      b,
      rw (idle, empty, lt→ltb n (length message) part, done, idle) refl,
      bytes ∙ ap (λ x. x ++ drop n message) none_wait,
    )

-- `shutdown` and `connectDestroyed` of a connection with nothing waiting.
shutdown-idle :
    (c : TcpConnection)
    → c.state ≡ connected
    → is_writing c ≡ false
    → shutdown c ≡ record c { state = disconnecting; effects = c.effects ++ shut_write ∷ [] }
unfolding shutdown shutdown_in_loop
shutdown-idle c up idle =
    let is_up : is_connected c.state ≡ true = ap is_connected up in rw (is_up, idle) refl

abbrev removed : TcpConnection → TcpConnection
removed c = record c {
  state = disconnected;
  events = none_event;
  effects = (c.effects ++ connection_callback ∷ []) ++ remove_channel ∷ [];
}

connect_destroyed-removed :
    (a : ℕ) (c : TcpConnection) (s : Poller) {t u : Poller}
    → c.state ≡ connected
    → set_interest disable_all s a ≡ ok t
    → Poller.remove_channel t a ≡ ok u
    → connect_destroyed_polled a c s ≡ ok (removed c, u)
unfolding connect_destroyed_polled change
connect_destroyed-removed a c s up quiet gone =
    let is_up : is_connected c.state ≡ true = ap is_connected up in rw (is_up, quiet, gone) refl

-- A direct write of part of a message to a connection that was removed, and what `enableWriting` comes
-- to then.
writes_part :
    (n : ℕ) (message : List ℕ) (c : TcpConnection)
    → Laws.IsValid c.output_buffer
    → contents c.output_buffer ≡ []
    → n < length message
    → try_write (wrote n) message (removed c)
      ≡ (record (removed c) { effects = (removed c).effects ++ sent (take n message) ∷ [] }, n)
unfolding try_write write_directly
writes_part n message c v none_wait part =
    let empty = readable-is_nil c.output_buffer v ∙ ap is_nil none_wait in
    rw (empty, lt→ltb n (length message) part) refl

stops_at_update :
    (n a : ℕ) (message : List ℕ) (d : TcpConnection) (s : Poller)
    → Laws.IsValid d.output_buffer
    → is_writing d ≡ false
    → n < length message
    → HasRoom d (length message)
    → set_interest enable_writing s a ≡ err assertion
    → buffer_rest_polled n message a d s ≡ err assertion
unfolding buffer_rest_polled
stops_at_update n a message d s v idle part room stop =
    let (b, done, valid, bytes) =
      append_lem d.output_buffer (drop n message) v (omega (arith, length-drop n message)) in
    rw (lt→ltb n (length message) part, done, idle, stop) refl

-- `send` in another thread finds a valid connection connected, with nothing waiting and its channel
-- registered in a consistent poller, and queues `sendInLoop`; write(2) then takes a part of the
-- message. If `shutdown` comes first, the part is written after the half-close. If the connection is
-- removed first, with `connectDestroyed`, which succeeds, the part is written for a connection that is
-- `kDisconnected`, and then the program stops: `enableWriting` is refused by the poller's assertion,
-- since the channel is no longer registered.
pub send_in_loop_late :
    (n : ℕ) (message : List ℕ) (a : ℕ) (c : TcpConnection) (s : Poller)
    → IsValid c
    → c.state ≡ connected
    → contents c.output_buffer ≡ []
    → n < length message
    → HasRoom c (length message)
    → IsConsistent s
    → s.channels (s.channel_at a).fd ≡ some a
    → ((d : TcpConnection) × (t : Poller) × (send_in_loop_polled (wrote n) message a (shutdown c) s
          ≡ ok (d, t))
        × (d.effects ≡ (c.effects ++ shut_write ∷ []) ++ sent (take n message) ∷ []))
      × ((gone : TcpConnection) × (u : Poller) × (connect_destroyed_polled a c s ≡ ok (gone, u))
          × (gone.state ≡ disconnected)
          × ((try_write (wrote n) message gone).0.effects
              ≡ ((c.effects ++ connection_callback ∷ []) ++ remove_channel ∷ [])
                ++ sent (take n message) ∷ [])
          × (send_in_loop_polled (wrote n) message a gone u ≡ err assertion))
unfolding send_in_loop_polled
send_in_loop_late n message a c s v up none_wait part room consistent reg =
    let idle : is_writing c ≡ false = is_writing-waiting c v ∙ ap (λ l. not (is_nil l)) none_wait in
    let half = record c { state = disconnecting; effects = c.effects ++ shut_write ∷ [] } in
    let (b, done, bytes) = sends_part n message half v.output none_wait idle part room in
    let (t, polled, still) =
      send_in_loop-registered (wrote n) message a (shutdown c) s consistent reg
        (ap (send_in_loop (wrote n) message) (shutdown-idle c up idle) ∙ done) in
    let (q, u, quiet, taken, stop) =
      set_interest-remove_channel enable_writing s a consistent reg in
    let wrote_part = writes_part n message c v.output none_wait part in
    let after = record (removed c) {
      effects = (removed c).effects ++ sent (take n message) ∷ [];
    } in
    (
      (_, t, polled, refl),
      (
        removed c,
        u,
        connect_destroyed-removed a c s up quiet taken,
        refl,
        ap (λ (r : TcpConnection × ℕ). r.0.effects) wrote_part,
        ap (λ (r : TcpConnection × ℕ). buffer_rest_polled r.1 message a r.0 u) wrote_part
            ∙ stops_at_update n a message after u v.output refl part room stop,
      ),
    )
