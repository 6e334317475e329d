-- ===== src/TcpConnection/Polled.antt =====
-- `sendInLoop` and `connectDestroyed` of mtnet/TcpConnection.cc with the poller that the connection's
-- channel is in, at the address `a`: here each new want of the channel is followed by `update()`.
use mtnet.Prelude.{
  ℕ, ◌≡◌, ap, List, length, drop, ltb, not, ◌||◌, if◌then◌else◌, some, ok, Result, guard, ◌>>=◌,
  ◌>>◌, assertion, >>=-eq-ok, ok_injective, Bool-cases, inl, inr,
}
use mtnet.Buffer.{append}
use mtnet.Channel.{enable_writing, disable_all}
use mtnet.Poller.Defs.{Poller, set_interest}
use mtnet.Poller.Defs as Poller
use mtnet.Poller.Invariant.{IsConsistent}
use mtnet.Poller.Interests.{set_interest-registered}
use mtnet.TcpConnection.Defs.{
  TcpConnection, is_connected, is_disconnecting, disconnected, connection_callback, remove_channel,
  Written, emit, want, is_writing, try_write, buffer_rest, send_in_loop,
}

-- The rest of `sendInLoop`.
unfoldable pub buffer_rest_polled :
    ℕ → List ℕ → ℕ → TcpConnection → Poller → Result (TcpConnection × Poller)
buffer_rest_polled nwrote message a c s =
    if ltb nwrote (length message)
    then append c.output_buffer (drop nwrote message) >>= (λ b.
      let d = record c { output_buffer = b } in
      let enabled = set_interest enable_writing s a >>= (λ t. ok (want enable_writing d, t)) in
      if not (is_writing d) then enabled else ok (d, s))
    else ok (c, s)

unfoldable pub send_in_loop_polled :
    Written → List ℕ → ℕ → TcpConnection → Poller → Result (TcpConnection × Poller)
unfolding buffer_rest_polled
send_in_loop_polled w message a c s =
    let r = try_write w message c in buffer_rest_polled r.1 message a r.0 s

unfoldable pub connect_destroyed_polled :
    ℕ → TcpConnection → Poller → Result (TcpConnection × Poller)
connect_destroyed_polled a c s = do
  guard (is_connected c.state || is_disconnecting c.state) assertion
  t ← set_interest disable_all s a
  let d = emit connection_callback (want disable_all (record c { state = disconnected }))
  u ← Poller.remove_channel t a
  ok (emit remove_channel d, u)

-- While the channel is registered in a consistent poller, `enableWriting` succeeds.
enabled :
    (s : Poller) (a : ℕ)
    → IsConsistent s
    → s.channels (s.channel_at a).fd ≡ some a
    → (t : Poller) × (set_interest enable_writing s a ≡ ok t) × IsConsistent t
enabled s a v reg =
    let (k, pfd, nonneg, own, at, here, same) = v.place (s.channel_at a).fd a reg in
    let (t, done, valid, same, heap, new) =
      set_interest-registered enable_writing s a k pfd v reg at here in
    (t, done, valid)

buffer_rest-registered :
    (n : ℕ) (message : List ℕ) (a : ℕ) (c : TcpConnection) (s : Poller) {d : TcpConnection}
    → IsConsistent s
    → s.channels (s.channel_at a).fd ≡ some a
    → buffer_rest n message c ≡ ok d
    → (t : Poller) × (buffer_rest_polled n message a c s ≡ ok (d, t)) × IsConsistent t
unfolding buffer_rest buffer_rest_polled
buffer_rest-registered n message a c s {d} v reg done =
    let (t, enable, valid) = enabled s a v reg in
    elim (Bool-cases (ltb n (length message))) [
      | inl part ↦
          let (b, room, rest) =
            >>=-eq-ok (append c.output_buffer (drop n message)) _ (simp part at done) in
          elim (Bool-cases (is_writing c)) [
            | inl busy ↦
                let same : record c { output_buffer = b } ≡ d = ok_injective (simp busy at rest) in
                (s, rw (part, room, busy) (ap (λ x. ok (x, s)) same), v)
            | inr idle ↦
                let same : want enable_writing (record c { output_buffer = b }) ≡ d =
                  ok_injective (simp idle at rest) in
                (t, rw (part, room, idle, enable) (ap (λ x. ok (x, t)) same), valid)
          ]
      | inr all ↦
          let same : c ≡ d = ok_injective (simp all at done) in
          (s, rw all (ap (λ x. ok (x, s)) same), v)
    ]

-- Where `sendInLoop` succeeds as in `Defs`, it does so with the poller too, if the connection's channel
-- is registered and the poller is consistent, and the poller stays consistent.
pub send_in_loop-registered :
    (w : Written) (message : List ℕ) (a : ℕ) (c : TcpConnection) (s : Poller) {d : TcpConnection}
    → IsConsistent s
    → s.channels (s.channel_at a).fd ≡ some a
    → send_in_loop w message c ≡ ok d
    → (t : Poller) × (send_in_loop_polled w message a c s ≡ ok (d, t)) × IsConsistent t
unfolding send_in_loop send_in_loop_polled
send_in_loop-registered w message a c s v reg done =
    let r = try_write w message c in buffer_rest-registered r.1 message a r.0 s v reg done
