-- ===== src/TcpConnection/Threads.antt =====
-- `send` and `shutdown` of mtnet/TcpConnection.cc called from other threads: each is a test of the state
-- and a push of `sendInLoop` or `shutdownInLoop` to the loop, which calls what was pushed in the order
-- of the pushes (`EventLoop`). Between the two halves, and before the call, anything may happen.
use mtnet.Prelude.{
  ℕ, zero, suc, ◌≡◌, refl, sym, ap, ◌∙◌, subst, List, [], ◌∷◌, ◌++◌, append-nil, append_assoc, true,
  length, ok, ok_injective, arith, Bool-cases, inl, inr,
}
use mtnet.Buffer.Laws.{contents}
use mtnet.TcpConnection.Defs.{
  TcpConnection, disconnecting, is_connected, Effect, shut_write, write_error, Written, wrote,
  failed, is_writing, emit, send_in_loop, shutdown_in_loop, handle_write,
}
use mtnet.TcpConnection.Stream.{wire, wire-append, stream, IsValid}
use mtnet.TcpConnection.Send.{Accepts, HasRoom, send_in_loop_lem}
use mtnet.TcpConnection.Write.{handle_write_lem}

-- What was pushed.
pub data Functor : Type 0 where
  send_message : List ℕ → Functor
  shut : Functor

-- The bytes of the messages that wait in the loop's queue.
abbrev pub queued : List Functor → List ℕ
queued [] = []
queued (send_message m ∷ fs) = m ++ queued fs
queued (shut ∷ fs) = queued fs

-- The connection, the loop's queue, the messages whose senders have tested the state and not yet pushed
-- (each with what the other threads do around it), how many callers of `shutdown` have tested the state
-- and not yet set it, how many have set it and not yet pushed, and, for the statements, the bytes of
-- all pushes in their order.
pub record World : Type 0 where
  pub connection : TcpConnection
  pub queue : List Functor
  pub senders : List (List ℕ)
  pub closing : ℕ
  pub stopping : ℕ
  pub pushed : List ℕ

abbrev pub begin : TcpConnection → World
begin c = record {
  connection = c;
  queue = [];
  senders = [];
  closing = 0;
  stopping = 0;
  pushed = stream c;
}

pub data Step (w : World) : World → Type 0 where
  -- Other threads, in `send` and in `shutdown`.
  tests :
      (m : List ℕ)
      → is_connected w.connection.state ≡ true
      → Step w (record w { senders = m ∷ w.senders })
  pushes :
      (before after : List (List ℕ)) (m : List ℕ)
      → w.senders ≡ before ++ m ∷ after
      → Step w (record w {
        senders = before ++ after;
        queue = w.queue ++ send_message m ∷ [];
        pushed = w.pushed ++ m;
      })
  tests_shut :
      is_connected w.connection.state ≡ true → Step w (record w { closing = suc w.closing })
  stops :
      (n : ℕ)
      → w.closing ≡ suc n
      → Step w (record w {
        connection = record w.connection { state = disconnecting };
        closing = n;
        stopping = suc w.stopping;
      })
  pushes_shut :
      (n : ℕ)
      → w.stopping ≡ suc n
      → Step w (record w { queue = w.queue ++ shut ∷ []; stopping = n })
  -- The loop's thread calls the first functor of its queue, or `handleWrite`.
  calls_send :
      (written : Written) (m : List ℕ) (rest : List Functor) (c : TcpConnection)
      → w.queue ≡ send_message m ∷ rest
      → Accepts written (length m)
      → HasRoom w.connection (length m)
      → send_in_loop written m w.connection ≡ ok c
      → Step w (record w { connection = c; queue = rest })
  calls_shut :
      (rest : List Functor)
      → w.queue ≡ shut ∷ rest
      → Step w (record w { connection = shutdown_in_loop w.connection; queue = rest })
  writes :
      (written : Written) (c : TcpConnection)
      → Accepts written (length (contents w.connection.output_buffer))
      → handle_write written w.connection ≡ ok c
      → Step w (record w { connection = c })

pub data Steps (w : World) : World → Type 0 where
  here : Steps w w
  next : {u v : World} → Steps w u → Step u v → Steps w v

queued-append : (fs gs : List Functor) → queued (fs ++ gs) ≡ queued fs ++ queued gs
queued-append [] gs = refl
queued-append (send_message m ∷ fs) gs =
    ap (◌++◌ m) (queued-append fs gs) ∙ sym (append_assoc m (queued fs) (queued gs))
queued-append (shut ∷ fs) gs = queued-append fs gs

-- An effect that carries no bytes.
emit-stream :
    (e : Effect) (c : TcpConnection)
    → wire (e ∷ []) ≡ []
    → IsValid c
    → IsValid (emit e c) × (stream (emit e c) ≡ stream c)
emit-stream e c silent v = (
  record { output = v.output; reading = v.reading; wants = v.wants },
  ap (λ x. x ++ contents c.output_buffer)
      (wire-append c.effects (e ∷ [])
        ∙ ap (◌++◌ (wire c.effects)) silent
        ∙ append-nil (wire c.effects)),
)

shutdown_in_loop-stream :
    (c : TcpConnection)
    → IsValid c
    → IsValid (shutdown_in_loop c) × (stream (shutdown_in_loop c) ≡ stream c)
unfolding shutdown_in_loop
shutdown_in_loop-stream c v = elim (Bool-cases (is_writing c)) [
  | inl busy ↦ rw busy (v, refl)
  | inr idle ↦ rw idle (emit-stream shut_write c refl v)
]

-- What holds of the one result that an operation has.
of_result :
    (a d c : TcpConnection)
    → ok a ≡ ok d
    → IsValid a × (stream a ≡ stream c)
    → IsValid d × (stream d ≡ stream c)
of_result a d c e h = subst (λ x. IsValid x × (stream x ≡ stream c)) (ok_injective e) h

-- `handleWrite`, whatever write(2) does.
handle_write-stream :
    (w : Written) (c d : TcpConnection)
    → IsValid c
    → Accepts w (length (contents c.output_buffer))
    → handle_write w c ≡ ok d
    → IsValid d × (stream d ≡ stream c)
unfolding handle_write
handle_write-stream (wrote zero) c d v takes done = elim (Bool-cases (is_writing c)) [
  | inl busy ↦
      of_result (emit write_error c) d c (rw busy refl ∙ done) (emit-stream write_error c refl v)
  | inr idle ↦ of_result c d c (rw idle refl ∙ done) (v, refl)
]
handle_write-stream (wrote (suc n)) c d v takes done =
    let (c', done', valid, same, left, effects, state, input) =
      handle_write_lem (suc n) c v (omega arith) takes in
    of_result c' d c (sym done' ∙ done) (valid, same)
handle_write-stream (failed errno) c d v takes done = elim (Bool-cases (is_writing c)) [
  | inl busy ↦
      of_result (emit write_error c) d c (rw busy refl ∙ done) (emit-stream write_error c refl v)
  | inr idle ↦ of_result c d c (rw idle refl ∙ done) (v, refl)
]

abbrev IsSound : World → Type 0
IsSound w = IsValid w.connection × (stream w.connection ++ queued w.queue ≡ w.pushed)

Step-IsSound : {w v : World} → Step w v → IsSound w → IsSound v
Step-IsSound {w} (tests m up) s = s
Step-IsSound {w} (pushes before after m e) (v, s) = (
  v,
  ap (◌++◌ (stream w.connection))
        (queued-append w.queue (send_message m ∷ []) ∙ ap (◌++◌ (queued w.queue)) (append-nil m))
      ∙ sym (append_assoc (stream w.connection) (queued w.queue) m)
      ∙ ap (λ x. x ++ m) s,
)
Step-IsSound {w} (tests_shut up) s = s
Step-IsSound {w} (stops n e) (v, s) =
    (record { output = v.output; reading = v.reading; wants = v.wants }, s)
Step-IsSound {w} (pushes_shut n e) (v, s) = (
  v,
  ap (◌++◌ (stream w.connection)) (queued-append w.queue (shut ∷ []) ∙ append-nil (queued w.queue))
      ∙ s,
)
Step-IsSound {w} (calls_send written m rest c e takes room done) (v, s) =
    let (c', done', sent) = send_in_loop_lem written m w.connection v takes room in
    let same : c' ≡ c = ok_injective (sym done' ∙ done) in
    (
      subst IsValid same sent.valid,
      ap (λ x. stream x ++ queued rest) (sym same)
          ∙ ap (λ x. x ++ queued rest) sent.stream
          ∙ append_assoc (stream w.connection) m (queued rest)
          ∙ ap (λ x. stream w.connection ++ queued x) (sym e)
          ∙ s,
    )
Step-IsSound {w} (calls_shut rest e) (v, s) =
    let (valid, same) = shutdown_in_loop-stream w.connection v in
    (valid, ap (λ x. x ++ queued rest) same ∙ ap (λ x. stream w.connection ++ queued x) (sym e) ∙ s)
Step-IsSound {w} (writes written c takes done) (v, s) =
    let (valid, same) = handle_write-stream written w.connection c v takes done in
    (valid, ap (λ x. x ++ queued w.queue) same ∙ s)

Steps-IsSound : {u w : World} → Steps u w → IsSound u → IsSound w
Steps-IsSound here s = s
Steps-IsSound (next ss st) s = Step-IsSound st (Steps-IsSound ss s)

-- A queued `sendInLoop` whose turn it is can be called, if write(2) and the buffer's room allow it.
pub calls_send-Step :
    (c : TcpConnection) {v : World} (written : Written) (m : List ℕ) (rest : List Functor)
    → IsValid c
    → Steps (begin c) v
    → v.queue ≡ send_message m ∷ rest
    → Accepts written (length m)
    → HasRoom v.connection (length m)
    → (d : TcpConnection) × Step v (record v { connection = d; queue = rest })
calls_send-Step c {v} written m rest valid ss e takes room =
    let sound = Steps-IsSound ss (valid, append-nil (stream c)) in
    let (d, done, sent) = send_in_loop_lem written m v.connection sound.0 takes room in
    (d, calls_send written m rest d e takes room done)

-- In every interleaving of other threads that call `send` and `shutdown` with the loop's thread, which
-- calls what they pushed and handles POLLOUT, on a connection that is valid at first: the connection is
-- valid, and the bytes on the wire, those in the output buffer and those of the messages in the loop's
-- queue are, in this order, the bytes that were sent before and those of all messages in the order of
-- their pushes; a `shutdown` in between loses, repeats or moves none of them.
pub pushed-in_order :
    (c : TcpConnection) {v : World}
    → IsValid c
    → Steps (begin c) v
    → IsValid v.connection
      × (wire v.connection.effects ++ (contents v.connection.output_buffer ++ queued v.queue)
          ≡ v.pushed)
pushed-in_order c {v} valid ss =
    let (valid', same) = Steps-IsSound ss (valid, append-nil (stream c)) in
    (
      valid',
      sym (
            append_assoc (wire v.connection.effects) (contents v.connection.output_buffer)
              (queued v.queue))
          ∙ same,
    )
