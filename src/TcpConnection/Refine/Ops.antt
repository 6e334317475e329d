-- ===== src/TcpConnection/Refine/Ops.antt =====
-- What happens to a connection of mtnet/TcpConnection.cc while it is up, and the pipe it stands for.
use mtnet.Prelude.{
  ℕ, ◌+◌, ◌≡◌, ◌<◌, ◌≤◌, ◌⊎◌, refl, sym, ap, ◌∙◌, subst, inl, inr, List, [], ◌∷◌, ◌++◌, Bool, true,
  false, ◌||◌, length, append-nil, Result, ok, ◌>>=◌,
}
use mtnet.Buffer.{max_size, retrieve, Readv}
use mtnet.Buffer.Laws
use mtnet.Buffer.Laws.{contents, length-contents}
use mtnet.TcpConnection.Defs.{
  TcpConnection, connected, disconnecting, is_connected, is_disconnecting, Effect, Written, emit,
  send, shutdown, handle_write, handle_read,
}
use mtnet.TcpConnection.Stream.{wire, wire-append, is_shut, is_shut-append_left, is_nil, IsValid}
use mtnet.TcpConnection.Send.{Accepts, HasRoom}
use mtnet.TcpConnection.Pipe.{Pipe, Label, accept, receive, close, consume, Moves, here, Pipe_eq}

-- What can happen to a connection in its loop's thread while it is up: a call of `send` with what
-- write(2) then does, a call of `shutdown`, POLLOUT with what write(2) does, POLLIN with what readv(2)
-- does, and the owner taking bytes out of the input buffer.
pub data Op : Type 0 where
  sends : Written → List ℕ → Op
  closing : Op
  writable : Written → Op
  readable : Readv → Op
  consuming : ℕ → Op

unfoldable pub perform : Op → TcpConnection → Result TcpConnection
perform (sends w message) c = send w message c
perform closing c = ok (shutdown c)
perform (writable w) c = handle_write w c
perform (readable r) c = handle_read r c
perform (consuming n) c = retrieve c.input_buffer n >>= λ b. ok (record c { input_buffer = b })

-- The kernel takes no more bytes than it is given, delivers some bytes or an error (no end of file),
-- the buffers have room, and the owner takes bytes that are there.
abbrev pub Allowed : Op → TcpConnection → Type 0
Allowed (sends w message) c = Accepts w (length message) × HasRoom c (length message)
Allowed closing c = Unit
Allowed (writable w) c = Accepts w (length (contents c.output_buffer))
Allowed (readable (Readv.stored bytes)) c =
    (0 < length bytes) × (c.input_buffer.write_index + length bytes ≤ max_size)
Allowed (readable (Readv.failed errno)) c = Unit
Allowed (consuming n) c = n ≤ length (contents c.input_buffer)

-- The pipe that a connection stands for.
abbrev pub pipe : TcpConnection → Pipe
pipe c = record {
  queued = contents c.output_buffer;
  delivered = wire c.effects;
  incoming = contents c.input_buffer;
  closing = is_disconnecting c.state;
  shut = is_shut c.effects;
}

-- A connection that is up: valid, and with nothing to send once it is half-closed.
pub record IsUp (c : TcpConnection) : Type 0 where
  pub valid : IsValid c
  pub input : Laws.IsValid c.input_buffer
  pub state : (c.state ≡ connected) ⊎ (c.state ≡ disconnecting)
  pub half_closed :
      (is_shut c.effects ≡ false) ⊎ ((c.state ≡ disconnecting) × (contents c.output_buffer ≡ []))

-- What an operation asks of the pipe, by whether the connection is already closing: `send` has its
-- message accepted, and `shutdown` closes, unless it is; POLLIN brings the bytes that readv(2) stored,
-- and the owner consumes as many as it takes.
abbrev pub input : Bool → Op → List Label
input false (sends w message) = accept message ∷ []
input true (sends w message) = []
input false closing = close ∷ []
input true closing = []
input cl (writable w) = []
input cl (readable (Readv.stored bytes)) = receive bytes ∷ []
input cl (readable (Readv.failed errno)) = []
input cl (consuming n) = consume n ∷ []

abbrev pub is_closing : Op → Bool
is_closing closing = true
is_closing _ = false

-- What a sequence of operations asks, from whether the connection is closing at its start.
abbrev pub inputs : Bool → List Op → List Label
inputs cl [] = []
inputs cl (op ∷ ops) = input cl op ++ inputs (cl || is_closing op) ops

-- The operation succeeds, and the pipe makes moves for what it was asked.
abbrev pub Refined : List Label → TcpConnection → Result TcpConnection → Type 0
Refined ls c r = (c' : TcpConnection) × (r ≡ ok c') × IsUp c' × Moves (pipe c) ls (pipe c')

-- Nothing happens.
pub unchanged : {c : TcpConnection} {r : Result TcpConnection} → IsUp c → r ≡ ok c → Refined [] c r
unchanged {c} u e = (c, e, u, here)

-- An effect that is neither bytes nor a half-close.
pub noted :
    {c : TcpConnection} {r : Result TcpConnection} (e : Effect)
    → wire (e ∷ []) ≡ []
    → is_shut (e ∷ []) ≡ false
    → IsUp c
    → r ≡ ok (emit e c)
    → Refined [] c r
noted {c} e silent open_still u done =
    let s = is_shut-append_left c.effects (e ∷ []) open_still in
    let w =
      wire-append c.effects (e ∷ [])
      ∙ ap (◌++◌ (wire c.effects)) silent
      ∙ append-nil (wire c.effects) in
    (
      emit e c,
      done,
      record {
        valid = record {
          output = u.valid.output;
          reading = u.valid.reading;
          wants = u.valid.wants;
        };
        input = u.input;
        state = u.state;
        half_closed = rw s u.half_closed;
      },
      subst (Moves (pipe c) []) (Pipe_eq refl (sym w) refl refl (sym s)) here,
    )

connected-ne-disconnecting : (c : TcpConnection) → c.state ≡ connected → c.state ≡ disconnecting → ⊥
connected-ne-disconnecting c e f =
    let clash : true ≡ false = sym (ap is_connected e) ∙ ap is_connected f in differ clash
  where
    differ : true ≡ false → ⊥
    differ h = cc

-- A connection with bytes to send, or that is not closing, is not half-closed.
pub connected-is_shut :
    {c : TcpConnection} → IsUp c → c.state ≡ connected → is_shut c.effects ≡ false
connected-is_shut {c} u e = elim u.half_closed [
  | inl still ↦ still
  | inr (f, g) ↦ absurd (connected-ne-disconnecting c e f)
]

pub waiting-is_shut :
    {c : TcpConnection}
    → IsUp c
    → is_nil (contents c.output_buffer) ≡ false
    → is_shut c.effects ≡ false
waiting-is_shut {c} u e = elim u.half_closed [
  | inl still ↦ still
  | inr (f, g) ↦ absurd (differ (sym (ap is_nil g) ∙ e))
]
  where
    differ : true ≡ false → ⊥
    differ h = cc
