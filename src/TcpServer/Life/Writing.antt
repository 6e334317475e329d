-- ===== src/TcpServer/Life/Writing.antt =====
-- `handleWrite` of mtnet/TcpConnection.cc leaves the life of a connection alone.
use mtnet.Prelude.{
  ℕ, ◌≡◌, refl, sym, ◌∙◌, List, ltb, ◌==◌, ◌>>=◌, if◌then◌else◌, Bool-cases, inl, inr, ok,
  >>=-eq-ok,
}
use mtnet.Buffer.{Buffer, retrieve, read_at, peek, readable_bytes}
use mtnet.Channel.{disable_writing}
use mtnet.TcpConnection.Defs.{
  TcpConnection, sent, write_complete, write_error, Written, wrote, failed, is_disconnecting,
  is_writing, emit, emit_if, want, shutdown_in_loop, write_done, write_some, write_ready,
  handle_write,
}
use mtnet.TcpServer.Life.Effects.{
  IsSame, IsSame-refl, IsSame-trans, emit-IsSame, emit_if-IsSame, want-IsSame, if-IsSame,
  buffer-IsSame, ok-IsSame,
}
use mtnet.TcpServer.Life.Sending.{shutdown_in_loop-IsSame}

write_done-IsSame : (c : TcpConnection) → IsSame c (write_done c)
unfolding write_done
write_done-IsSame c =
    if-IsSame (is_disconnecting c.state) c (shutdown_in_loop done) done
      (IsSame-trans c done (shutdown_in_loop done) kept (shutdown_in_loop-IsSame done)) kept
  where
    done : TcpConnection
    done = emit_if c.has_write_complete write_complete (want disable_writing c)

    kept : IsSame c done
    kept =
        IsSame-trans c (want disable_writing c) done (want-IsSame disable_writing c)
          (emit_if-IsSame c.has_write_complete write_complete (want disable_writing c) refl)

write_some-IsSame : (n : ℕ) (c d : TcpConnection) → write_some n c ≡ ok d → IsSame c d
unfolding write_some
write_some-IsSame n c d h =
    let (bytes, got, both) =
      >>=-eq-ok (read_at c.output_buffer.buffer (peek c.output_buffer) n)
        (λ bytes. retrieve c.output_buffer n >>= (λ b. ok (written bytes b))) h in
    let (b, done, last) = >>=-eq-ok (retrieve c.output_buffer n) (λ b. ok (written bytes b)) both in
    ok-IsSame c (written bytes b) d (same bytes b) last
  where
    after : List ℕ → Buffer → TcpConnection
    after bytes b = emit (sent bytes) (record c { output_buffer = b })

    written : List ℕ → Buffer → TcpConnection
    written bytes b = if readable_bytes b == 0 then write_done (after bytes b) else after bytes b

    kept : (bytes : List ℕ) (b : Buffer) → IsSame c (after bytes b)
    kept bytes b =
        IsSame-trans c (record c { output_buffer = b }) (after bytes b) (buffer-IsSame b c)
          (emit-IsSame (sent bytes) (record c { output_buffer = b }) refl)

    same : (bytes : List ℕ) (b : Buffer) → IsSame c (written bytes b)
    same bytes b =
        if-IsSame (readable_bytes b == 0) c (write_done (after bytes b)) (after bytes b)
          (IsSame-trans c (after bytes b) (write_done (after bytes b)) (kept bytes b)
            (write_done-IsSame (after bytes b)))
          (kept bytes b)

write_ready-IsSame : (w : Written) (c d : TcpConnection) → write_ready w c ≡ ok d → IsSame c d
unfolding write_ready
write_ready-IsSame (wrote n) c d h = elim (Bool-cases (ltb 0 n)) [
  | inl e ↦ write_some-IsSame n c d (sym (rw e refl) ∙ h)
  | inr e ↦
      ok-IsSame c (emit write_error c) d (emit-IsSame write_error c refl) (sym (rw e refl) ∙ h)
]
write_ready-IsSame (failed errno) c d h =
    ok-IsSame c (emit write_error c) d (emit-IsSame write_error c refl) h

pub handle_write-IsSame : (w : Written) (c d : TcpConnection) → handle_write w c ≡ ok d → IsSame c d
unfolding handle_write
handle_write-IsSame w c d h = elim (Bool-cases (is_writing c)) [
  | inl e ↦ write_ready-IsSame w c d (sym (rw e refl) ∙ h)
  | inr e ↦ ok-IsSame c c d (IsSame-refl c) (sym (rw e refl) ∙ h)
]
