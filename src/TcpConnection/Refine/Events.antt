-- ===== src/TcpConnection/Refine/Events.antt =====
-- `handleWrite`, `handleRead` and the taking of input move a connection as they move its pipe.
use mtnet.Prelude.{
  ℕ, zero, suc, ◌+◌, ◌≡◌, ◌<◌, ◌≤◌, ◌⊎◌, refl, sym, ap, ◌∙◌, subst, inl, inr, List, [], ◌∷◌, ◌++◌,
  Bool, true, false, not, ◌||◌, length, length-take, take, drop, append-nil, take-append-drop,
  arith, Bool-cases, ok, lt→ltb,
}
use mtnet.Buffer
use mtnet.Buffer.{read_fd, max_size, retrieve, Readv, stored}
use mtnet.Buffer.Laws
use mtnet.Buffer.Laws.{contents, length-contents}
use mtnet.Buffer.Append.{read_fd_lem}
use mtnet.Buffer.Read.{retrieve_lem}
use mtnet.TcpConnection.Defs.{
  TcpConnection, connected, disconnecting, is_disconnecting, sent, write_error, message_callback,
  handle_error, Written, wrote, failed, is_writing, emit, handle_write, handle_read,
}
use mtnet.TcpConnection.Stream.{
  wire, wire-append, is_shut, is_shut-append, is_shut-append_left, is_nil, is_writing-waiting,
}
use mtnet.TcpConnection.Send.{Accepts}
use mtnet.TcpConnection.Write.{after_write, wire-after_write, farewell, handle_write_lem}
use mtnet.TcpConnection.Pipe.{
  Pipe, receive, consume, delivers, shuts, receives, consumes, Moves, here, next, Moves-trans,
  Pipe_eq,
}
use mtnet.TcpConnection.Refine.Ops.{
  input, writable, readable, consuming, perform, Allowed, pipe, IsUp, Refined, unchanged, noted,
  waiting-is_shut,
}

-- A half-close follows a write only when nothing is left and the connection is closing.
is_shut-after_write :
    (c : TcpConnection) (bytes rest : List ℕ)
    → is_shut c.effects ≡ false
    → is_shut ((c.effects ++ sent bytes ∷ []) ++ after_write rest c) ≡ is_shut (after_write rest c)
is_shut-after_write c bytes rest still =
    is_shut-append (c.effects ++ sent bytes ∷ []) (after_write rest c)
    ∙ ap (λ b. b || is_shut (after_write rest c))
        (is_shut-append_left c.effects (sent bytes ∷ []) refl ∙ still)

wire-after_bytes :
    (c : TcpConnection) (bytes rest : List ℕ)
    → wire ((c.effects ++ sent bytes ∷ []) ++ after_write rest c) ≡ wire c.effects ++ bytes
wire-after_bytes c bytes rest = rw (
  wire-append (c.effects ++ sent bytes ∷ []) (after_write rest c),
  wire-after_write rest c,
  wire-append c.effects (sent bytes ∷ []),
  append-nil bytes,
  append-nil (wire c.effects ++ bytes),
)

-- The half-close that may follow the bytes.
after_delivery :
    (c : TcpConnection) (p : Pipe) (rest : List ℕ)
    → (c.state ≡ connected) ⊎ (c.state ≡ disconnecting)
    → p.closing ≡ is_disconnecting c.state
    → p.queued ≡ rest
    → p.shut ≡ false
    → Moves p [] (record p { shut = is_shut (after_write rest c) })
      × ((is_shut (after_write rest c) ≡ false) ⊎ ((c.state ≡ disconnecting) × (rest ≡ [])))
after_delivery c p (x ∷ rest) st cl q still =
    (subst (Moves p []) (Pipe_eq refl refl refl refl still) here, inl refl)
after_delivery c p [] (inl up) cl q still =
    let not_closing : is_disconnecting c.state ≡ false = ap is_disconnecting up in
    let e : is_shut (after_write [] c) ≡ false = rw not_closing (quiet c.has_write_complete) in
    (subst (Moves p []) (Pipe_eq refl refl refl refl (still ∙ sym e)) here, inl e)
  where
    quiet : (b : Bool) → is_shut (farewell b false) ≡ false
    quiet true = refl
    quiet false = refl
after_delivery c p [] (inr down) cl q still =
    let is_closing : is_disconnecting c.state ≡ true = ap is_disconnecting down in
    let e : is_shut (after_write [] c) ≡ true = rw is_closing (last c.has_write_complete) in
    (
      subst (Moves p []) (Pipe_eq refl refl refl refl (sym e))
          (next here (shuts (cl ∙ is_closing) q)),
      inr (down, refl),
    )
  where
    last : (b : Bool) → is_shut (farewell b true) ≡ true
    last true = refl
    last false = refl

wrote_lem :
    (n : ℕ) (c : TcpConnection)
    → IsUp c
    → is_nil (contents c.output_buffer) ≡ false
    → 0 < n
    → n ≤ length (contents c.output_buffer)
    → Refined [] c (handle_write (wrote n) c)
wrote_lem n c u waits some_bytes most =
    let (c', done, valid, same_stream, left, effects, state, input) =
      handle_write_lem n c u.valid some_bytes most in
    let still = waiting-is_shut u waits in
    let bytes = take n (contents c.output_buffer) in
    let rest = drop n (contents c.output_buffer) in
    let p : Pipe = record (pipe c) { queued = rest; delivered = wire c.effects ++ bytes } in
    let (moves, half) = after_delivery c p rest u.state refl refl still in
    let shut = ap is_shut effects ∙ is_shut-after_write c bytes rest still in
    (
      c',
      done,
      record {
        valid = valid;
        input = subst Laws.IsValid (sym input) u.input;
        state = elim u.state [ inl e ↦ inl (state ∙ e) | inr e ↦ inr (state ∙ e) ];
        half_closed = elim half [ inl e ↦ inl (shut ∙ e) | inr (e, f) ↦ inr (state ∙ e, left ∙ f) ];
      },
      subst (Moves (pipe c) [])
          (Pipe_eq (sym left) (sym (ap wire effects ∙ wire-after_bytes c bytes rest))
            (ap contents (sym input)) (ap is_disconnecting (sym state)) (sym shut))
          (Moves-trans
            (next here
              (delivers bytes rest still (sym (take-append-drop n (contents c.output_buffer)))))
            moves),
    )

pub writable_lem :
    (w : Written) (c : TcpConnection)
    → IsUp c
    → Allowed (writable w) c
    → Refined [] c (handle_write w c)
unfolding handle_write
writable_lem w c u takes = elim (Bool-cases (is_nil (contents c.output_buffer))) [
  | inl none_wait ↦
      let idle : is_writing c ≡ false = is_writing-waiting c u.valid ∙ ap not none_wait in
      unchanged u (rw idle)
  | inr some_wait ↦
      let busy : is_writing c ≡ true = is_writing-waiting c u.valid ∙ ap not some_wait in
      by_result w some_wait busy takes
]
  where
    by_result :
        (w : Written)
        → is_nil (contents c.output_buffer) ≡ false
        → is_writing c ≡ true
        → Accepts w (length (contents c.output_buffer))
        → Refined [] c (handle_write w c)
    by_result (wrote zero) some_wait busy most = noted write_error refl refl u (rw busy)
    by_result (wrote (suc n)) some_wait busy most =
        wrote_lem (suc n) c u some_wait (omega arith) most
    by_result (failed errno) some_wait busy most = noted write_error refl refl u (rw busy)

-- A failed readv(2) leaves the buffer alone.
read_fd-failed :
    (errno : ℕ) (b : Buffer.Buffer) → read_fd (Readv.failed errno) b ≡ ok (Buffer.error errno, b)
unfolding read_fd
read_fd-failed errno b = refl

pub readable_lem :
    (r : Readv) (c : TcpConnection)
    → IsUp c
    → Allowed (readable r) c
    → Refined (input (is_disconnecting c.state) (readable r)) c (handle_read r c)
unfolding handle_read
readable_lem (Readv.stored bytes) c u (some_bytes, room) =
    let (b, done, valid, more) = read_fd_lem c.input_buffer bytes u.input room in
    let e = message_callback in
    let w = wire-append c.effects (e ∷ []) ∙ append-nil (wire c.effects) in
    let s = is_shut-append_left c.effects (e ∷ []) refl in
    (
      emit e (record c { input_buffer = b }),
      rw (done, lt→ltb 0 (length bytes) some_bytes),
      record {
        valid = record {
          output = u.valid.output;
          reading = u.valid.reading;
          wants = u.valid.wants;
        };
        input = valid;
        state = u.state;
        half_closed = rw s u.half_closed;
      },
      subst (Moves (pipe c) (receive bytes ∷ [])) (Pipe_eq refl (sym w) (sym more) refl (sym s))
          (next here (receives bytes)),
    )
readable_lem (Readv.failed errno) c u h =
    noted handle_error refl refl u (rw (read_fd-failed errno c.input_buffer))

pub consuming_lem :
    (n : ℕ) (c : TcpConnection)
    → IsUp c
    → Allowed (consuming n) c
    → Refined (input (is_disconnecting c.state) (consuming n)) c (perform (consuming n) c)
unfolding perform
consuming_lem n c u some =
    let i = c.input_buffer in
    let enough : i.reader_index + n ≤ i.write_index =
      omega (arith, length-contents i u.input, u.input.ordered) in
    let many : length (take n (contents i)) ≡ n = omega (arith, length-take n (contents i), some) in
    let (b, done, valid, rest) = retrieve_lem i n u.input enough in
    (
      record c { input_buffer = b },
      rw done,
      record {
        valid = record {
          output = u.valid.output;
          reading = u.valid.reading;
          wants = u.valid.wants;
        };
        input = valid;
        state = u.state;
        half_closed = u.half_closed;
      },
      subst (λ k. Moves (pipe c) (consume k ∷ []) (record (pipe c) { incoming = contents b })) many
          (subst (Moves (pipe c) (consume (length (take n (contents i))) ∷ []))
            (Pipe_eq refl refl (sym rest) refl refl)
            (next here (
              consumes (take n (contents i)) (drop n (contents i))
                (sym (take-append-drop n (contents i)))))),
    )
