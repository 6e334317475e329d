-- ===== src/TcpConnection/Refine.antt =====
-- A connection that is up behaves like a `Pipe`, whatever its owner, the kernel and the peer do.
pub mod Ops
mod Sending
mod Events
use mtnet.Prelude.{
  ℕ, ◌++◌, length, Bool, true, false, ◌||◌, ◌≡◌, refl, sym, ◌∙◌, subst, ok_injective, List, [], ◌∷◌,
  Result, ok, ◌>>=◌,
}
use mtnet.TcpConnection.Defs.{TcpConnection, is_disconnecting}
use mtnet.TcpConnection.Pipe.{Moves, here, Moves-trans, accepted, received, consumed, has_close}
use mtnet.TcpConnection.Balance.{Moves-closing, Moves-outward, Moves-Inward}
use mtnet.TcpConnection.Stream.{wire}
use mtnet.Buffer.{Readv}
use mtnet.Buffer.Laws.{contents}
use mtnet.TcpConnection.Refine.Ops.{
  Op, sends, closing, writable, readable, consuming, perform, input, inputs, is_closing, Allowed,
  pipe, IsUp, Refined,
}
use mtnet.TcpConnection.Refine.Sending.{sends_lem, closing_lem}
use mtnet.TcpConnection.Refine.Events.{writable_lem, readable_lem, consuming_lem}

perform_lem :
    (op : Op) (c : TcpConnection)
    → IsUp c
    → Allowed op c
    → Refined (input (is_disconnecting c.state) op) c (perform op c)
unfolding perform
perform_lem (sends w message) c u h = sends_lem w message c u h
perform_lem closing c u h = closing_lem c u
perform_lem (writable w) c u h = writable_lem w c u h
perform_lem (readable r) c u h = readable_lem r c u h
perform_lem (consuming n) c u h = consuming_lem n c u h

-- A sequence of such operations.
unfoldable pub perform_all : List Op → TcpConnection → Result TcpConnection
perform_all [] c = ok c
perform_all (op ∷ ops) c = perform op c >>= λ d. perform_all ops d

abbrev pub AllAllowed : List Op → TcpConnection → Type 0
AllAllowed [] c = Unit
AllAllowed (op ∷ ops) c =
    Allowed op c × ((d : TcpConnection) → perform op c ≡ ok d → AllAllowed ops d)

-- What is allowed after an operation, by the one result that it has.
pub AllAllowed-next :
    (op : Op) (ops : List Op) (c : TcpConnection) {e : TcpConnection}
    → perform op c ≡ ok e
    → AllAllowed ops e
    → (d : TcpConnection) → perform op c ≡ ok d
    → AllAllowed ops d
AllAllowed-next op ops c first later d second =
    subst (AllAllowed ops) (ok_injective (sym first ∙ second)) later

-- Whether an operation asks for the pipe to close, or it is closing already.
closing-input : (cl : Bool) (op : Op) → (cl || has_close (input cl op)) ≡ (cl || is_closing op)
closing-input false (sends w message) = refl
closing-input true (sends w message) = refl
closing-input false closing = refl
closing-input true closing = refl
closing-input cl (writable w) = refl
closing-input cl (readable (Readv.stored bytes)) = refl
closing-input cl (readable (Readv.failed errno)) = refl
closing-input cl (consuming n) = refl

perform_all-Refined :
    (ops : List Op) (c : TcpConnection)
    → IsUp c
    → AllAllowed ops c
    → Refined (inputs (is_disconnecting c.state) ops) c (perform_all ops c)
unfolding perform_all
perform_all-Refined [] c u h = (c, refl, u, here)
perform_all-Refined (op ∷ ops) c u (one, later) =
    let cl = is_disconnecting c.state in
    let (d, done, ud, moves) = perform_lem op c u one in
    let (c', rest, uc, more) = perform_all-Refined ops d ud (later d done) in
    let then_closing : is_disconnecting d.state ≡ (cl || is_closing op) =
      Moves-closing moves ∙ closing-input cl op in
    (
      c',
      rw (done, perform_all) rest,
      uc,
      subst (λ b. Moves (pipe c) (input cl op ++ inputs b ops) (pipe c')) then_closing
          (Moves-trans moves more),
    )

-- Every sequence of allowed operations on a connection that is up succeeds, with no failed assertion
-- and no access outside a buffer, and leaves it up. Let `asked` be the messages of the calls of `send`
-- that come before any `shutdown`, the first `shutdown`, the bytes that readv(2) stored and the numbers
-- of bytes that the owner took, in this order of events. The connection moves as a `Pipe` may move
-- that is asked for just this: it is half-closed only when it is closing and every accepted byte has
-- been delivered, after which no byte is delivered. So no byte is lost, doubled or reordered: the
-- bytes delivered, followed by those that wait, are those from before followed by all the messages;
-- and the bytes taken, as many as the owner asked for, followed by those that are there, are those
-- from before followed by all that was stored.
pub perform_all_lem :
    (ops : List Op) (c : TcpConnection)
    → IsUp c
    → AllAllowed ops c
    → let asked = inputs (is_disconnecting c.state) ops in
      (c' : TcpConnection) × (perform_all ops c ≡ ok c')
      × IsUp c'
      × Moves (pipe c) asked (pipe c')
      × (wire c'.effects ++ contents c'.output_buffer
          ≡ (wire c.effects ++ contents c.output_buffer) ++ accepted asked)
      × (taken : List ℕ) × (length taken ≡ consumed asked)
      × (taken ++ contents c'.input_buffer ≡ contents c.input_buffer ++ received asked)
perform_all_lem ops c u h =
    let (c', done, up, moves) = perform_all-Refined ops c u h in
    let (taken, many, order) = Moves-Inward moves in
    (c', done, up, moves, Moves-outward moves, taken, many, order)
