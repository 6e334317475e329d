-- ===== src/TcpConnection/Stream.antt =====
-- The bytes of a connection: what the kernel took, then what waits in the output buffer, is what was
-- sent.
use mtnet.Prelude.{
  ℕ, ◌≡◌, refl, sym, ap, ◌∙◌, List, [], ◌∷◌, ◌++◌, Bool, true, false, not, ◌||◌, ◌==◌, length,
  append_assoc, arith,
}
use mtnet.Buffer.{Buffer, readable_bytes}
use mtnet.Buffer.Laws.{contents, length-contents}
use mtnet.Buffer.Laws
use mtnet.Channel.Events.{bits, bits_tests}
use mtnet.TcpConnection.Defs.{TcpConnection, Effect, sent, is_writing}

-- The bytes that the kernel took, in order.
abbrev pub wire : List Effect → List ℕ
wire [] = []
wire (sent bytes ∷ es) = bytes ++ wire es
wire (e ∷ es) = wire es

pub wire-append : (es fs : List Effect) → wire (es ++ fs) ≡ wire es ++ wire fs
wire-append [] fs = refl
wire-append (sent bytes ∷ es) fs =
    rw (wire-append es fs) (sym (append_assoc bytes (wire es) (wire fs)))
wire-append (Effect.shut_write ∷ es) fs = wire-append es fs
wire-append (Effect.write_complete ∷ es) fs = wire-append es fs
wire-append (Effect.connection_callback ∷ es) fs = wire-append es fs
wire-append (Effect.message_callback ∷ es) fs = wire-append es fs
wire-append (Effect.close_callback ∷ es) fs = wire-append es fs
wire-append (Effect.remove_channel ∷ es) fs = wire-append es fs
wire-append (Effect.write_error ∷ es) fs = wire-append es fs
wire-append (Effect.handle_error ∷ es) fs = wire-append es fs

-- Whether the socket was half-closed.
abbrev pub is_shut : List Effect → Bool
is_shut [] = false
is_shut (Effect.shut_write ∷ es) = true
is_shut (e ∷ es) = is_shut es

pub is_shut-append : (es fs : List Effect) → is_shut (es ++ fs) ≡ (is_shut es || is_shut fs)
is_shut-append [] fs = refl
is_shut-append (sent bytes ∷ es) fs = is_shut-append es fs
is_shut-append (Effect.shut_write ∷ es) fs = refl
is_shut-append (Effect.write_complete ∷ es) fs = is_shut-append es fs
is_shut-append (Effect.connection_callback ∷ es) fs = is_shut-append es fs
is_shut-append (Effect.message_callback ∷ es) fs = is_shut-append es fs
is_shut-append (Effect.close_callback ∷ es) fs = is_shut-append es fs
is_shut-append (Effect.remove_channel ∷ es) fs = is_shut-append es fs
is_shut-append (Effect.write_error ∷ es) fs = is_shut-append es fs
is_shut-append (Effect.handle_error ∷ es) fs = is_shut-append es fs

or_false : (b : Bool) → (b || false) ≡ b
or_false true = refl
or_false false = refl

-- Effects that are no half-close leave it to the others.
pub is_shut-append_left :
    (es fs : List Effect) → is_shut fs ≡ false → is_shut (es ++ fs) ≡ is_shut es
is_shut-append_left es fs h = is_shut-append es fs ∙ rw h (or_false (is_shut es))

-- Everything that was sent: on the wire, or waiting.
abbrev pub stream : TcpConnection → List ℕ
stream c = wire c.effects ++ contents c.output_buffer

abbrev pub is_nil : List ℕ → Bool
is_nil [] = true
is_nil (x ∷ xs) = false

-- The output buffer is valid, and writing is wanted exactly while bytes wait in it.
pub record IsValid (c : TcpConnection) : Type 0 where
  pub output : Laws.IsValid c.output_buffer
  pub reading : Bool
  pub wants : c.events ≡ bits reading (not (is_nil (contents c.output_buffer)))

pub is_writing-waiting :
    (c : TcpConnection) → IsValid c → is_writing c ≡ not (is_nil (contents c.output_buffer))
is_writing-waiting c v = rw v.wants ((bits_tests v.reading _).1)

is_nil-length : (l : List ℕ) → is_nil l ≡ (length l == 0)
is_nil-length [] = refl
is_nil-length (x ∷ xs) = ground arith

pub readable-is_nil : (b : Buffer) → Laws.IsValid b → (readable_bytes b == 0) ≡ is_nil (contents b)
readable-is_nil b v =
    let e : readable_bytes b ≡ length (contents b) = omega (arith, length-contents b v) in
    ap (λ n. n == 0) e ∙ sym (is_nil-length (contents b))
