-- ===== src/TcpServer/Life/Sending.antt =====
-- `send` and `shutdown` of mtnet/TcpConnection.cc leave the life of a connection alone.
use mtnet.Prelude.{
  ℕ, ◌≡◌, refl, sym, ◌∙◌, List, true, not, ◌&&◌, ltb, ◌==◌, ◌>>=◌, if◌then◌else◌, Bool-cases, inl,
  inr, length, drop, take, Result, ok, >>=-eq-ok,
}
use mtnet.Buffer.{Buffer, append, readable_bytes}
use mtnet.Channel.{enable_writing}
use mtnet.TcpConnection.Defs.{
  TcpConnection, State, connecting, connected, disconnecting, disconnected, sent, shut_write,
  write_complete, write_error, Written, wrote, failed, is_connected, is_writing, emit, want,
  ewouldblock, write_directly, try_write, buffer_rest, send_in_loop, send, shutdown_in_loop,
  shutdown,
}
use mtnet.TcpServer.Life.Defs.{begin_shutdown}
use mtnet.TcpServer.Life.Effects.{
  stage, IsSame, IsSame-refl, IsSame-trans, emit-IsSame, emit_if-IsSame, if-IsSame, buffer-IsSame,
  ok-IsSame,
}

write_directly-IsSame :
    (w : Written) (m : List ℕ) (c : TcpConnection) → IsSame c (write_directly w m c).0
unfolding write_directly
write_directly-IsSame (wrote n) m c =
    IsSame-trans c (emit (sent (take n m)) c) (write_directly (wrote n) m c).0
      (emit-IsSame (sent (take n m)) c refl)
      (emit_if-IsSame (not (ltb n (length m)) && c.has_write_complete) write_complete
        (emit (sent (take n m)) c) refl)
write_directly-IsSame (failed e) m c = emit_if-IsSame (not (e == ewouldblock)) write_error c refl

try_write-IsSame : (w : Written) (m : List ℕ) (c : TcpConnection) → IsSame c (try_write w m c).0
unfolding try_write
try_write-IsSame w m c =
    elim (Bool-cases (not (is_writing c) && readable_bytes c.output_buffer == 0)) [
      | inl e ↦ rw e (write_directly-IsSame w m c)
      | inr e ↦ rw e (IsSame-refl c)
    ]

buffer_rest-IsSame :
    (n : ℕ) (m : List ℕ) (c d : TcpConnection) → buffer_rest n m c ≡ ok d → IsSame c d
unfolding buffer_rest
buffer_rest-IsSame n m c d h = elim (Bool-cases (ltb n (length m))) [
  | inl e ↦
      let k : (append c.output_buffer (drop n m) >>= rest) ≡ ok d = sym (rw e refl) ∙ h in
      let (b, got, done) = >>=-eq-ok (append c.output_buffer (drop n m)) rest k in
      ok-IsSame c (rested b) d
        (if-IsSame (not (is_writing (record c { output_buffer = b }))) c
          (want enable_writing (record c { output_buffer = b })) (record c { output_buffer = b })
          (record { stage_same = refl; life_same = refl }) (buffer-IsSame b c))
        done
  | inr e ↦ ok-IsSame c c d (IsSame-refl c) (sym (rw e refl) ∙ h)
]
  where
    rested : Buffer → TcpConnection
    rested b =
        let x = record c { output_buffer = b } in
        if not (is_writing x) then want enable_writing x else x

    rest : Buffer → Result TcpConnection
    rest b = ok (rested b)

pub send_in_loop-IsSame :
    (w : Written) (m : List ℕ) (c d : TcpConnection) → send_in_loop w m c ≡ ok d → IsSame c d
unfolding send_in_loop
send_in_loop-IsSame w m c d h =
    let r = try_write w m c in
    IsSame-trans c r.0 d (try_write-IsSame w m c) (buffer_rest-IsSame r.1 m r.0 d h)

pub send-IsSame : (w : Written) (m : List ℕ) (c d : TcpConnection) → send w m c ≡ ok d → IsSame c d
unfolding send
send-IsSame w m c d h = elim (Bool-cases (is_connected c.state)) [
  | inl e ↦ send_in_loop-IsSame w m c d (sym (rw e refl) ∙ h)
  | inr e ↦ ok-IsSame c c d (IsSame-refl c) (sym (rw e refl) ∙ h)
]

pub shutdown_in_loop-IsSame : (c : TcpConnection) → IsSame c (shutdown_in_loop c)
unfolding shutdown_in_loop
shutdown_in_loop-IsSame c =
    if-IsSame (not (is_writing c)) c (emit shut_write c) c (emit-IsSame shut_write c refl)
      (IsSame-refl c)

connected-stage : (s : State) → is_connected s ≡ true → stage s ≡ 1
connected-stage connected h = refl
connected-stage connecting h = cc
connected-stage disconnecting h = cc
connected-stage disconnected h = cc

disconnecting-IsSame :
    (c : TcpConnection)
    → is_connected c.state ≡ true
    → IsSame c (record c { state = disconnecting })
disconnecting-IsSame c h = record { stage_same = sym (connected-stage c.state h); life_same = refl }

pub shutdown-IsSame : (c : TcpConnection) → IsSame c (shutdown c)
unfolding shutdown
shutdown-IsSame c = elim (Bool-cases (is_connected c.state)) [
  | inl e ↦ rw e (
      IsSame-trans c (record c { state = disconnecting })
        (shutdown_in_loop (record c { state = disconnecting })) (disconnecting-IsSame c e)
        (shutdown_in_loop-IsSame (record c { state = disconnecting })))
  | inr e ↦ rw e (IsSame-refl c)
]

pub begin_shutdown-IsSame : (c : TcpConnection) → IsSame c (begin_shutdown c)
unfolding begin_shutdown
begin_shutdown-IsSame c = elim (Bool-cases (is_connected c.state)) [
  | inl e ↦ rw e (disconnecting-IsSame c e)
  | inr e ↦ rw e (IsSame-refl c)
]
