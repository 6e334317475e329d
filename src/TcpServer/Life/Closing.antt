-- ===== src/TcpServer/Life/Closing.antt =====
-- `handleClose` and `handleRead` of mtnet/TcpConnection.cc, which may close a connection.
use mtnet.Prelude.{
  ◌≡◌, ◌⊎◌, refl, sym, ◌∙◌, subst, [], ◌∷◌, Bool, true, false, ◌||◌, ltb, ◌>>=◌, Bool-cases, inl,
  inr, ok, ok_injective, >>=-eq-ok, guard, assertion,
}
use mtnet.Buffer.{Buffer, Readv, ReadCount, received, error, read_fd}
use mtnet.Channel.{disable_all, change}
use mtnet.TcpConnection.Defs.{
  TcpConnection, State, connecting, connected, disconnecting, disconnected, message_callback,
  close_callback, handle_error, is_connected, is_disconnecting, emit, want, handle_close,
  after_read, handle_read,
}
use mtnet.TcpServer.Life.Effects.{
  life-append, stage, IsSame, IsClosing, IsSame-trans, emit-IsSame, ok-IsSame, IsSame-IsClosing,
}

pub is_open-stage : (s : State) → (is_connected s || is_disconnecting s) ≡ true → stage s ≡ 1
is_open-stage connected h = refl
is_open-stage disconnecting h = refl
is_open-stage connecting h = cc
is_open-stage disconnected h = cc

pub handle_close-IsClosing : (c d : TcpConnection) → handle_close c ≡ ok d → IsClosing c d
unfolding handle_close change
handle_close-IsClosing c d h = go (is_connected c.state || is_disconnecting c.state) refl h
  where
    closed : TcpConnection
    closed = emit close_callback (want disable_all c)

    go :
        (b : Bool)
        → (is_connected c.state || is_disconnecting c.state) ≡ b
        → (guard b assertion >>= (λ u. ok closed)) ≡ ok d
        → IsClosing c d
    go false e k = cc
    go true e k =
        subst (λ x. IsClosing c x) (ok_injective k)
          (record {
            was = is_open-stage c.state e;
            stays = is_open-stage c.state e;
            life_closed = life-append c.effects (close_callback ∷ []);
            wants_none = refl;
          })

abbrev pub Outcome : TcpConnection → TcpConnection → Type 0
Outcome c d = IsSame c d ⊎ IsClosing c d

after_read-Outcome : (r : ReadCount) (c d : TcpConnection) → after_read r c ≡ ok d → Outcome c d
unfolding after_read
after_read-Outcome (received n) c d h = elim (Bool-cases (ltb 0 n)) [
  | inl e ↦ inl (
      ok-IsSame c (emit message_callback c) d (emit-IsSame message_callback c refl)
        (sym (rw e refl) ∙ h))
  | inr e ↦ inr (handle_close-IsClosing c d (sym (rw e refl) ∙ h))
]
after_read-Outcome (error errno) c d h =
    inl (ok-IsSame c (emit handle_error c) d (emit-IsSame handle_error c refl) h)

pub handle_read-Outcome : (r : Readv) (c d : TcpConnection) → handle_read r c ≡ ok d → Outcome c d
unfolding handle_read
handle_read-Outcome r c d h =
    let (p, got, done) =
      >>=-eq-ok (read_fd r c.input_buffer)
        (λ (p : ReadCount × Buffer). after_read p.0 (record c { input_buffer = p.1 })) h in
    elim (after_read-Outcome p.0 (record c { input_buffer = p.1 }) d done) [
      | inl s ↦ inl (record { stage_same = s.stage_same; life_same = s.life_same })
      | inr k ↦ inr (record {
        was = k.was;
        stays = k.stays;
        life_closed = k.life_closed;
        wants_none = k.wants_none;
      })
    ]

pub IsSame-Outcome : (a b c : TcpConnection) → IsSame a b → Outcome b c → Outcome a c
IsSame-Outcome a b c s (inl t) = inl (IsSame-trans a b c s t)
IsSame-Outcome a b c s (inr k) = inr (IsSame-IsClosing a b c s k)
