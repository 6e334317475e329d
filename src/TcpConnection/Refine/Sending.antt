-- ===== src/TcpConnection/Refine/Sending.antt =====
-- `send` and `shutdown` move a connection as they move its pipe.
use mtnet.Prelude.{
  ℕ, ◌≡◌, refl, sym, ap, ◌∙◌, subst, inl, inr, List, [], ◌∷◌, ◌++◌, Bool, true, false, not, ◌||◌,
  take, append-nil, append_assoc, append_cancel, Bool-cases, ok,
}
use mtnet.Buffer.Laws
use mtnet.Buffer.Laws.{contents, length-contents}
use mtnet.Channel.Events.{bits}
use mtnet.TcpConnection.Defs.{
  TcpConnection, connected, disconnecting, is_connected, is_disconnecting, shut_write, Written,
  send, shutdown,
}
use mtnet.TcpConnection.Stream.{wire, wire-append, is_shut, is_shut-append, is_nil, IsValid}
use mtnet.TcpConnection.Send.{is_nil-eq, send_in_loop_lem}
use mtnet.TcpConnection.Shutdown.{shutdown_lem}
use mtnet.TcpConnection.Pipe.{
  accept, close, accepts, delivers, closes, shuts, Moves, here, next, Pipe_eq,
}
use mtnet.TcpConnection.Refine.Ops.{
  sends, closing, input, Allowed, pipe, IsUp, Refined, unchanged, connected-is_shut,
}

pub sends_lem :
    (w : Written) (message : List ℕ) (c : TcpConnection)
    → IsUp c
    → Allowed (sends w message) c
    → Refined (input (is_disconnecting c.state) (sends w message)) c (send w message c)
unfolding send
sends_lem w message c u (takes, room) = elim u.state [
  | inl up ↦ asked (ap is_disconnecting up) (
      let is_up : is_connected c.state ≡ true = ap is_connected up in
      let (c', done, s) = send_in_loop_lem w message c u.valid takes room in
      let still : is_shut c.effects ≡ false = connected-is_shut u up in
      let bytes = take s.count message in
      let rest = contents c'.output_buffer in
      let split : contents c.output_buffer ++ message ≡ bytes ++ rest =
        append_cancel (wire c.effects) _ _ (
          sym (append_assoc (wire c.effects) (contents c.output_buffer) message)
          ∙ sym s.stream
          ∙ ap (λ x. x ++ rest) s.direct
          ∙ append_assoc (wire c.effects) bytes rest) in
      (
        c',
        rw is_up done,
        record {
          valid = s.valid;
          input = subst Laws.IsValid (sym s.input) u.input;
          state = inl (s.state ∙ up);
          half_closed = inl (s.shut ∙ still);
        },
        subst (Moves (pipe c) (accept message ∷ []))
            (Pipe_eq refl (sym s.direct) (ap contents (sym s.input))
              (ap is_disconnecting (sym s.state)) (sym s.shut))
            (next (next here (accepts message (ap is_disconnecting up)))
              (delivers bytes rest still split)),
      ))
  | inr down ↦
      let is_down : is_connected c.state ≡ false = ap is_connected down in
      asked (ap is_disconnecting down) (unchanged u (rw is_down))
]
  where
    asked :
        {b : Bool}
        → is_disconnecting c.state ≡ b
        → Refined (input b (sends w message)) c (send w message c)
        → Refined (input (is_disconnecting c.state) (sends w message)) c (send w message c)
    asked e r = subst (λ b. Refined (input b (sends w message)) c (send w message c)) (sym e) r

or_true : (b : Bool) → (b || true) ≡ true
or_true true = refl
or_true false = refl

shutdown-disconnecting : (c : TcpConnection) → c.state ≡ disconnecting → shutdown c ≡ c
unfolding shutdown
shutdown-disconnecting c down =
    let is_down : is_connected c.state ≡ false = ap is_connected down in rw is_down

-- `shutdown` of a connection that is connected.
closing-connected :
    (c : TcpConnection) → IsUp c → c.state ≡ connected → Refined (close ∷ []) c (ok (shutdown c))
closing-connected c u up =
    let (state, events, output, input, effects) = shutdown_lem c u.valid up in
    let still = connected-is_shut u up in
    let valid : IsValid (shutdown c) = record {
      output = subst Laws.IsValid (sym output) u.valid.output;
      reading = u.valid.reading;
      wants =
          events
          ∙ u.valid.wants
          ∙ ap (λ b. bits u.valid.reading (not (is_nil (contents b)))) (sym output);
    } in
    let input' = subst Laws.IsValid (sym input) u.input in
    elim (Bool-cases (is_nil (contents c.output_buffer))) [
      | inl none_wait ↦
          let empty = is_nil-eq (contents c.output_buffer) none_wait in
          let eff : (shutdown c).effects ≡ c.effects ++ shut_write ∷ [] =
            effects ∙ rw none_wait refl in
          let shut : is_shut (shutdown c).effects ≡ true =
            ap is_shut eff
            ∙ is_shut-append c.effects (shut_write ∷ [])
            ∙ or_true (is_shut c.effects) in
          let sent_same : wire (shutdown c).effects ≡ wire c.effects =
            ap wire eff ∙ wire-append c.effects (shut_write ∷ []) ∙ append-nil (wire c.effects) in
          (
            shutdown c,
            refl,
            record {
              valid = valid;
              input = input';
              state = inr state;
              half_closed = inr (state, ap contents output ∙ empty);
            },
            subst (Moves (pipe c) (close ∷ []))
                (Pipe_eq (ap contents (sym output)) (sym sent_same) (ap contents (sym input))
                  (ap is_disconnecting (sym state)) (sym shut))
                (next (next here closes) (shuts refl empty)),
          )
      | inr some_wait ↦
          let eff : (shutdown c).effects ≡ c.effects = effects ∙ rw some_wait refl in
          (
            shutdown c,
            refl,
            record {
              valid = valid;
              input = input';
              state = inr state;
              half_closed = inl (ap is_shut eff ∙ still);
            },
            subst (Moves (pipe c) (close ∷ []))
                (Pipe_eq (ap contents (sym output)) (ap wire (sym eff)) (ap contents (sym input))
                  (ap is_disconnecting (sym state)) (ap is_shut (sym eff)))
                (next here closes),
          )
    ]

pub closing_lem :
    (c : TcpConnection)
    → IsUp c
    → Refined (input (is_disconnecting c.state) closing) c (ok (shutdown c))
closing_lem c u = elim u.state [
  | inl up ↦ asked (ap is_disconnecting up) (closing-connected c u up)
  | inr down ↦
      asked (ap is_disconnecting down) (unchanged u (ap ok (shutdown-disconnecting c down)))
]
  where
    asked :
        {b : Bool}
        → is_disconnecting c.state ≡ b
        → Refined (input b closing) c (ok (shutdown c))
        → Refined (input (is_disconnecting c.state) closing) c (ok (shutdown c))
    asked e r = subst (λ b. Refined (input b closing) c (ok (shutdown c))) (sym e) r
