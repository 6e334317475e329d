-- ===== src/TcpConnection/Send.antt =====
-- `send` of mtnet/TcpConnection.cc: no byte of a message is lost, doubled or reordered.
use mtnet.Prelude.{
  ℕ, ◌+◌, ◌≡◌, ◌<◌, ◌≤◌, ◌⊎◌, refl, sym, ap, ap₂, ◌∙◌, subst, inl, inr, List, [], ◌∷◌, ◌++◌, Bool,
  true, false, not, ◌&&◌, ltb, ◌==◌, if◌then◌else◌, length, take, drop, append-nil, append_assoc,
  arith, Bool-cases, ok, take-append-drop, drop_all, length-drop, ltb→lt, ltb_false→le,
}
use mtnet.Buffer.{Buffer, max_size, readable_bytes}
use mtnet.Buffer.Laws
use mtnet.Buffer.Laws.{contents}
use mtnet.Buffer.Append.{append_lem}
use mtnet.Channel.{change, enable_writing}
use mtnet.Channel.Events.{bits, change-bits}
use mtnet.TcpConnection.Defs.{
  TcpConnection, connected, is_connected, sent, write_complete, write_error, Written, wrote, failed,
  is_writing, emit, emit_if, want, write_directly, try_write, buffer_rest, send_in_loop, send,
  ewouldblock,
}
use mtnet.TcpConnection.Stream
use mtnet.TcpConnection.Stream.{
  is_shut, is_shut-append_left, wire, wire-append, stream, is_nil, IsValid, is_writing-waiting,
  readable-is_nil,
}

-- `write(2)` takes at most the bytes that it is given.
abbrev pub Accepts : Written → ℕ → Type 0
Accepts (wrote k) n = k ≤ n
Accepts (failed errno) n = Unit

-- What the first half of `sendInLoop` leaves.
record Tried (message : List ℕ) (c : TcpConnection) (r : TcpConnection × ℕ) : Type 0 where
  count : r.1 ≤ length message
  output : r.0.output_buffer ≡ c.output_buffer
  events : r.0.events ≡ c.events
  state : r.0.state ≡ c.state
  input : r.0.input_buffer ≡ c.input_buffer
  shut : is_shut r.0.effects ≡ is_shut c.effects
  bytes : wire r.0.effects ≡ wire c.effects ++ take r.1 message
  clear : (r.1 ≡ 0) ⊎ (contents c.output_buffer ≡ [])

Tried-nothing : (message : List ℕ) (c : TcpConnection) → Tried message c (c, 0)
Tried-nothing message c = record {
  count = omega arith;
  output = refl;
  events = refl;
  state = refl;
  input = refl;
  shut = refl;
  bytes = sym (append-nil (wire c.effects));
  clear = inl refl;
}

write_directly-Tried :
    (w : Written) (message : List ℕ) (c : TcpConnection)
    → Accepts w (length message)
    → contents c.output_buffer ≡ []
    → Tried message c (write_directly w message c)
unfolding write_directly
write_directly-Tried (wrote n) message c k e =
    go (not (ltb n (length message)) && c.has_write_complete)
  where
    one : wire (c.effects ++ sent (take n message) ∷ []) ≡ wire c.effects ++ take n message
    one =
        wire-append c.effects (sent (take n message) ∷ [])
        ∙ ap (◌++◌ (wire c.effects)) (append-nil (take n message))

    go : (b : Bool) → Tried message c (emit_if b write_complete (emit (sent (take n message)) c), n)
    go true = record {
      count = k;
      output = refl;
      events = refl;
      state = refl;
      input = refl;
      shut =
          is_shut-append_left (c.effects ++ sent (take n message) ∷ []) (write_complete ∷ []) refl
          ∙ is_shut-append_left c.effects (sent (take n message) ∷ []) refl;
      bytes =
          wire-append (c.effects ++ sent (take n message) ∷ []) (write_complete ∷ [])
          ∙ append-nil (wire (c.effects ++ sent (take n message) ∷ []))
          ∙ one;
      clear = inr e;
    }
    go false = record {
      count = k;
      output = refl;
      events = refl;
      state = refl;
      input = refl;
      shut = is_shut-append_left c.effects (sent (take n message) ∷ []) refl;
      bytes = one;
      clear = inr e;
    }
write_directly-Tried (failed errno) message c k e = go (not (errno == ewouldblock))
  where
    go : (b : Bool) → Tried message c (emit_if b write_error c, 0)
    go true = record {
      count = omega arith;
      output = refl;
      events = refl;
      state = refl;
      input = refl;
      shut = is_shut-append_left c.effects (write_error ∷ []) refl;
      bytes = wire-append c.effects (write_error ∷ []);
      clear = inl refl;
    }
    go false = Tried-nothing message c

pub is_nil-eq : (l : List ℕ) → is_nil l ≡ true → l ≡ []
is_nil-eq [] h = refl
is_nil-eq (x ∷ xs) h = cc

try_write-Tried :
    (w : Written) (message : List ℕ) (c : TcpConnection)
    → IsValid c
    → Accepts w (length message)
    → Tried message c (try_write w message c)
unfolding try_write
try_write-Tried w message c v k =
    let e = readable-is_nil c.output_buffer v.output in
    elim (Bool-cases (not (is_writing c) && readable_bytes c.output_buffer == 0)) [
      | inl free ↦
          let empty : (readable_bytes c.output_buffer == 0) ≡ true = both _ _ free in
          rw free (write_directly-Tried w message c k (is_nil-eq _ (sym e ∙ empty)))
      | inr busy ↦ rw busy (Tried-nothing message c)
    ]
  where
    both : (a b : Bool) → (a && b) ≡ true → b ≡ true
    both true b h = h
    both false b h = cc

-- The output buffer can hold `n` more bytes below `max_size()`.
abbrev pub HasRoom : TcpConnection → ℕ → Type 0
HasRoom c n = c.output_buffer.write_index + n ≤ max_size

enable_if : Bool → TcpConnection → TcpConnection
enable_if b d = if b then want enable_writing d else d

-- Wanting to write, once bytes wait.
enable_if-IsValid :
    (reading old : Bool) (d : TcpConnection)
    → Laws.IsValid d.output_buffer
    → is_nil (contents d.output_buffer) ≡ false
    → d.events ≡ bits reading old
    → IsValid (enable_if (not old) d)
unfolding enable_if
enable_if-IsValid reading true d v waits e = record {
  output = v;
  reading = reading;
  wants = rw waits e;
}
enable_if-IsValid reading false d v waits e = record {
  output = v;
  reading = reading;
  wants = rw waits (ap (change enable_writing) e ∙ change-bits enable_writing reading false);
}

enable_if-same :
    (b : Bool) (d : TcpConnection)
    → ((enable_if b d).output_buffer ≡ d.output_buffer)
      × ((enable_if b d).effects ≡ d.effects)
      × ((enable_if b d).state ≡ d.state)
      × ((enable_if b d).input_buffer ≡ d.input_buffer)
unfolding enable_if
enable_if-same true d = (refl, refl, refl, refl)
enable_if-same false d = (refl, refl, refl, refl)

is_nil-append_right : (xs ys : List ℕ) → 0 < length ys → is_nil (xs ++ ys) ≡ false
is_nil-append_right [] [] h = elim h [ ]
is_nil-append_right [] (y ∷ ys) h = refl
is_nil-append_right (x ∷ xs) ys h = refl

buffer_rest_lem :
    (n : ℕ) (message : List ℕ) (d : TcpConnection)
    → IsValid d
    → HasRoom d (length message)
    → (c' : TcpConnection) × (buffer_rest n message d ≡ ok c')
      × IsValid c'
      × (stream c' ≡ stream d ++ drop n message)
      × (c'.state ≡ d.state)
      × (c'.effects ≡ d.effects)
      × (c'.input_buffer ≡ d.input_buffer)
unfolding buffer_rest enable_if
buffer_rest_lem n message d v room = elim (Bool-cases (ltb n (length message))) [
  | inl more ↦
      let lt = ltb→lt n (length message) more in
      let (b, done, valid, bytes) =
        append_lem d.output_buffer (drop n message) v.output
          (omega (arith, length-drop n message)) in
      let e = record d { output_buffer = b } in
      let waits : is_nil (contents b) ≡ false =
        ap is_nil bytes
        ∙ is_nil-append_right (contents d.output_buffer) (drop n message)
            (omega (arith, length-drop n message)) in
      let writing = is_writing-waiting d v in
      let same = enable_if-same (not (not (is_nil (contents d.output_buffer)))) e in
      (
        enable_if (not (not (is_nil (contents d.output_buffer)))) e,
        rw (more, done, writing),
        enable_if-IsValid v.reading _ e valid waits v.wants,
        ap₂ (λ (x : Buffer) es. wire es ++ contents x) same.0 same.1
            ∙ ap (◌++◌ (wire d.effects)) bytes
            ∙ sym (append_assoc (wire d.effects) (contents d.output_buffer) (drop n message)),
        same.2,
        same.1,
        same.3,
      )
  | inr all ↦
      let le = ltb_false→le n (length message) all in
      (d, rw all, v, sym (rw (drop_all n message le) (append-nil (stream d))), refl, refl, refl)
]

-- With `n` bytes written directly, and none waiting before if there are any such.
rejoin :
    (sent_bytes waiting message : List ℕ) (n : ℕ)
    → (n ≡ 0) ⊎ (waiting ≡ [])
    → ((sent_bytes ++ take n message) ++ waiting) ++ drop n message
      ≡ (sent_bytes ++ waiting) ++ message
rejoin s w message n (inl e) = rw e (ap (λ x. (x ++ w) ++ message) (append-nil s))
rejoin s w message n (inr e) = rw (
  e,
  append-nil (s ++ take n message),
  append-nil s,
  append_assoc s (take n message) (drop n message),
  take-append-drop n message,
)

-- What `sendInLoop` leaves.
pub record Sent (message : List ℕ) (c c' : TcpConnection) : Type 0 where
  pub valid : IsValid c'
  pub stream : Stream.stream c' ≡ Stream.stream c ++ message
  pub state : c'.state ≡ c.state
  pub input : c'.input_buffer ≡ c.input_buffer
  pub shut : is_shut c'.effects ≡ is_shut c.effects
  pub count : ℕ
  pub direct : wire c'.effects ≡ wire c.effects ++ take count message

-- `sendInLoop` in any state of the connection.
pub send_in_loop_lem :
    (w : Written) (message : List ℕ) (c : TcpConnection)
    → IsValid c
    → Accepts w (length message)
    → HasRoom c (length message)
    → (c' : TcpConnection) × (send_in_loop w message c ≡ ok c') × Sent message c c'
unfolding send_in_loop
send_in_loop_lem w message c v k room =
    let r = try_write w message c in
    let t = try_write-Tried w message c v k in
    let valid : IsValid r.0 = record {
      output = subst Laws.IsValid (sym t.output) v.output;
      reading = v.reading;
      wants =
          t.events
          ∙ v.wants
          ∙ ap (λ (b : Buffer). bits v.reading (not (is_nil (contents b)))) (sym t.output);
    } in
    let room' =
      subst (λ (b : Buffer). b.write_index + length message ≤ max_size) (sym t.output) room in
    let (c', done, valid', bytes, same, effects, input) =
      buffer_rest_lem r.1 message r.0 valid room' in
    (
      c',
      done,
      record {
        valid = valid';
        stream =
            bytes
            ∙ ap (λ x. x ++ drop r.1 message)
                (ap₂ (λ ws (b : Buffer). ws ++ contents b) t.bytes t.output)
            ∙ rejoin (wire c.effects) (contents c.output_buffer) message r.1 t.clear;
        state = same ∙ t.state;
        input = input ∙ t.input;
        shut = ap is_shut effects ∙ t.shut;
        count = r.1;
        direct = ap wire effects ∙ t.bytes;
      },
    )

-- `send` of a message on a valid connected connection whose output buffer can hold the message below
-- `max_size()`, whatever part of it `write(2)` takes or however it fails: it succeeds, and the stream
-- of the connection, the bytes on the wire followed by those that wait in the output buffer, grows by
-- exactly the message. Writing is wanted afterwards exactly if bytes wait.
pub send_lem :
    (w : Written) (message : List ℕ) (c : TcpConnection)
    → IsValid c
    → Accepts w (length message)
    → HasRoom c (length message)
    → c.state ≡ connected
    → (c' : TcpConnection) × (send w message c ≡ ok c')
      × IsValid c'
      × (stream c' ≡ stream c ++ message)
      × (c'.state ≡ connected)
unfolding send
send_lem w message c v k room up =
    let is_up : is_connected c.state ≡ true = ap is_connected up in
    let (c', done, s) = send_in_loop_lem w message c v k room in
    (c', rw is_up done, s.valid, s.stream, s.state ∙ up)
