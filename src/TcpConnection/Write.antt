-- ===== src/TcpConnection/Write.antt =====
-- `handleWrite` and `shutdownInLoop` of mtnet/TcpConnection.cc.
use mtnet.Prelude.{
  ℕ, zero, suc, ◌+◌, ◌-◌, ◌≡◌, ◌<◌, ◌≤◌, refl, sym, ap, ap₂, ◌∙◌, subst, List, [], ◌∷◌, ◌++◌, Bool,
  true, false, not, if◌then◌else◌, length, take, drop, append-nil, append_assoc, arith, ok,
  take-append-drop, lt→ltb, le→leb,
}
use mtnet.Buffer.{Buffer, read_at, peek}
use mtnet.Buffer.Laws
use mtnet.Buffer.Laws.{contents}
use mtnet.Buffer.Read.{retrieve_lem}
use mtnet.Channel.{any_bit, write_event, change, disable_writing}
use mtnet.Channel.Events.{bits, bits_tests, change-bits}
use mtnet.TcpConnection.Defs.{
  TcpConnection, is_disconnecting, Effect, sent, shut_write, write_complete, wrote, is_writing,
  emit, emit_if, want, shutdown_in_loop, write_done, write_some, handle_write,
}
use mtnet.TcpConnection.Stream.{
  wire, wire-append, stream, is_nil, IsValid, is_writing-waiting, readable-is_nil,
}

-- What `handleWrite` does after the last waiting byte: the callback, then a half-close that waited.
abbrev pub farewell : (has_callback closing : Bool) → List Effect
farewell true true = write_complete ∷ shut_write ∷ []
farewell true false = write_complete ∷ []
farewell false true = shut_write ∷ []
farewell false false = []

-- What `handleWrite` leaves after the last byte.
record Done (reading has_callback closing : Bool) (c d : TcpConnection) : Type 0 where
  output : d.output_buffer ≡ c.output_buffer
  input : d.input_buffer ≡ c.input_buffer
  state : d.state ≡ c.state
  events : d.events ≡ bits reading false
  effects : d.effects ≡ c.effects ++ farewell has_callback closing

-- With the state the connection has before, it half-closes once no byte waits.
closing_after :
    (reading y : Bool) (x : Bool) (c d : TcpConnection)
    → Done reading x false c d
    → Done reading x y c (if y then shutdown_in_loop d else d)
unfolding shutdown_in_loop
closing_after reading false x c d t = t
closing_after reading true x c d t =
    let idle : is_writing d ≡ false =
      ap (λ e. any_bit e write_event) t.events ∙ (bits_tests reading false).1 in
    rw idle record {
      output = t.output;
      input = t.input;
      state = t.state;
      events = t.events;
      effects =
          ap (λ es. es ++ shut_write ∷ []) t.effects
          ∙ append_assoc c.effects (farewell x false) (shut_write ∷ [])
          ∙ ap (◌++◌ c.effects) (both x);
    }
  where
    both : (b : Bool) → farewell b false ++ shut_write ∷ [] ≡ farewell b true
    both true = refl
    both false = refl

write_done-Done :
    (reading : Bool) (c : TcpConnection)
    → c.events ≡ bits reading true
    → Done reading c.has_write_complete (is_disconnecting c.state) c (write_done c)
unfolding write_done
write_done-Done reading c e =
    closing_after reading (is_disconnecting c.state) c.has_write_complete c _
      (called c.has_write_complete)
  where
    stopped : change disable_writing c.events ≡ bits reading false
    stopped = ap (change disable_writing) e ∙ change-bits disable_writing reading true

    called : (b : Bool) → Done reading b false c (emit_if b write_complete (want disable_writing c))
    called true = record {
      output = refl;
      input = refl;
      state = refl;
      events = stopped;
      effects = refl;
    }
    called false = record {
      output = refl;
      input = refl;
      state = refl;
      events = stopped;
      effects = sym (append-nil c.effects);
    }

take-take_le : (n m : ℕ) (xs : List ℕ) → n ≤ m → take n (take m xs) ≡ take n xs
take-take_le zero m xs h = refl
take-take_le (suc n) zero xs h = elim h [ ]
take-take_le (suc n) (suc m) [] h = refl
take-take_le (suc n) (suc m) (x ∷ xs) h = ap (◌∷◌ x) (take-take_le n m xs (omega (arith, h)))

-- `write` is given the oldest readable bytes.
read_at-contents :
    (b : Buffer) (n : ℕ)
    → Laws.IsValid b
    → b.reader_index + n ≤ b.write_index
    → read_at b.buffer (peek b) n ≡ ok (take n (contents b))
unfolding read_at
read_at-contents b n v h = rw (
  le→leb (b.reader_index + n) (length b.buffer) (omega (arith, v.inside)),
  take-take_le n (b.write_index - b.reader_index) (drop b.reader_index b.buffer) (omega arith),
)

-- No byte is lost when the oldest ones move from the buffer to the wire.
moved :
    (es rest : List Effect) (bytes : List ℕ) (n : ℕ)
    → wire rest ≡ []
    → wire ((es ++ sent (take n bytes) ∷ []) ++ rest) ++ drop n bytes ≡ wire es ++ bytes
moved es rest bytes n quiet = rw (
  wire-append (es ++ sent (take n bytes) ∷ []) rest,
  quiet,
  wire-append es (sent (take n bytes) ∷ []),
  append-nil (take n bytes),
  append-nil (wire es ++ take n bytes),
  append_assoc (wire es) (take n bytes) (drop n bytes),
  take-append-drop n bytes,
)

wire-farewell : (x y : Bool) → wire (farewell x y) ≡ []
wire-farewell true true = refl
wire-farewell true false = refl
wire-farewell false true = refl
wire-farewell false false = refl

-- What follows a write that leaves `rest` waiting.
abbrev pub after_write : (rest : List ℕ) → TcpConnection → List Effect
after_write [] c = farewell c.has_write_complete (is_disconnecting c.state)
after_write (x ∷ rest) c = []

pub wire-after_write : (rest : List ℕ) (c : TcpConnection) → wire (after_write rest c) ≡ []
wire-after_write [] c = wire-farewell c.has_write_complete (is_disconnecting c.state)
wire-after_write (x ∷ rest) c = refl

-- `handleWrite` once the buffer is `d`'s.
finish_lem :
    (c d : TcpConnection) (reading : Bool) (rest : List ℕ)
    → Laws.IsValid d.output_buffer
    → contents d.output_buffer ≡ rest
    → d.events ≡ bits reading true
    → d.has_write_complete ≡ c.has_write_complete
    → d.state ≡ c.state
    → let e = if is_nil rest then write_done d else d in
      IsValid e
      × (e.output_buffer ≡ d.output_buffer)
      × (e.effects ≡ d.effects ++ after_write rest c)
      × (e.state ≡ c.state)
      × (e.input_buffer ≡ d.input_buffer)
finish_lem c d reading [] v here wants callback state =
    let t = write_done-Done reading d wants in
    (
      record {
        output = subst Laws.IsValid (sym t.output) v;
        reading = reading;
        wants = rw (t.output, here) t.events;
      },
      t.output,
      rw (sym callback, sym state) t.effects,
      t.state ∙ state,
      t.input,
    )
finish_lem c d reading (x ∷ rest) v here wants callback state = (
  record { output = v; reading = reading; wants = rw here wants },
  refl,
  sym (append-nil d.effects),
  state,
  refl,
)

-- `handleWrite` on a valid connection when bytes wait and `write(2)` takes `n` of them, at least one
-- and at most all: it succeeds; the bytes taken are the `n` oldest waiting ones, and they leave the
-- buffer, so that the stream of the connection is unchanged; writing is still wanted exactly if bytes
-- still wait. If none wait any more it queues the write-complete callback, if there is one, and then,
-- in state `kDisconnecting`, half-closes the socket; if some wait it does neither. The state and the
-- input buffer stay as they were.
pub handle_write_lem :
    (n : ℕ) (c : TcpConnection)
    → IsValid c
    → 0 < n
    → n ≤ length (contents c.output_buffer)
    → (c' : TcpConnection) × (handle_write (wrote n) c ≡ ok c')
      × IsValid c'
      × (stream c' ≡ stream c)
      × (contents c'.output_buffer ≡ drop n (contents c.output_buffer))
      × (c'.effects
          ≡ (c.effects ++ sent (take n (contents c.output_buffer)) ∷ [])
            ++ after_write (drop n (contents c.output_buffer)) c)
      × (c'.state ≡ c.state)
      × (c'.input_buffer ≡ c.input_buffer)
unfolding handle_write write_some
handle_write_lem n c v some_bytes most =
    let o = c.output_buffer in
    let len = Laws.length-contents o v.output in
    let enough : o.reader_index + n ≤ o.write_index = omega (arith, len, v.output.ordered) in
    let (b, done, valid, rest) = retrieve_lem o n v.output enough in
    let waits : is_nil (contents o) ≡ false = not-nil (contents o) n some_bytes most in
    let old : c.events ≡ bits v.reading true = v.wants ∙ ap (λ e. bits v.reading (not e)) waits in
    let d = emit (sent (take n (contents o))) (record c { output_buffer = b }) in
    let (valid', out, es, same, input) =
      finish_lem c d v.reading (drop n (contents o)) valid rest old refl refl in
    (
      if is_nil (drop n (contents o)) then write_done d else d,
      rw
          (
            is_writing-waiting c v,
            waits,
            lt→ltb 0 n some_bytes,
            read_at-contents o n v.output enough,
            done,
            readable-is_nil b valid,
            rest,
          )
          refl,
      valid',
      ap₂ (λ (x : Buffer) fs. wire fs ++ contents x) out es
          ∙ ap
              (◌++◌ (
                wire (
                  (c.effects ++ sent (take n (contents o)) ∷ [])
                  ++ after_write (drop n (contents o)) c)))
              rest
          ∙ moved c.effects (after_write (drop n (contents o)) c) (contents o) n
              (wire-after_write (drop n (contents o)) c),
      ap contents out ∙ rest,
      es,
      same,
      input,
    )
  where
    not-nil : (xs : List ℕ) (m : ℕ) → 0 < m → m ≤ length xs → is_nil xs ≡ false
    not-nil [] m h k = let z : 0 < 0 = omega (arith, h, k) in elim z [ ]
    not-nil (x ∷ xs) m h k = refl
