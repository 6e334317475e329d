-- ===== src/TcpServer/Life/Calls.antt =====
-- What a call or an event does to the life of a connection of mtnet/TcpConnection.cc.
use mtnet.Prelude.{
  ℕ, ◌≡◌, ◌⊎◌, refl, sym, ap, ◌∙◌, subst, Bool, true, false, not, ◌&&◌, inl, inr, Result, ok,
  ok_injective, >>=-eq-ok,
}
use mtnet.Buffer.{Readv}
use mtnet.Channel.{any_bit}
use mtnet.TcpConnection.Defs.{
  TcpConnection, handle_error, Written, emit, shutdown_in_loop, shutdown, handle_write,
  handle_close, handle_read,
}
use mtnet.TcpConnection.Wiring.{when, handlers}
use mtnet.TcpServer.Life.Defs.{
  Call, sends, sends_in_loop, shuts_down, begins_shutdown, shuts_down_in_loop, happens, Polled,
  is_answer, is_allowed, begin_shutdown, run_call,
}
use mtnet.TcpServer.Life.Effects.{
  IsSame, IsClosing, IsSame-refl, IsSame-trans, emit-IsSame, ok-IsSame, IsSame-IsClosing,
}
use mtnet.TcpServer.Life.Sending.{
  send_in_loop-IsSame, send-IsSame, shutdown_in_loop-IsSame, shutdown-IsSame, begin_shutdown-IsSame,
}
use mtnet.TcpServer.Life.Writing.{handle_write-IsSame}
use mtnet.TcpServer.Life.Closing.{
  handle_close-IsClosing, handle_read-Outcome, IsSame-Outcome, Outcome,
}

-- A handler that runs, or is passed over.
when-eq-ok :
    (r : Readv) (w : Written) (b : Bool) (f : TcpConnection → Result TcpConnection)
    (before : Result TcpConnection) (d : TcpConnection)
    → when r w b f before ≡ ok d
    → (x : TcpConnection) × (before ≡ ok x)
      × (((b ≡ true) × (f x ≡ ok d)) ⊎ ((b ≡ false) × (x ≡ d)))
when-eq-ok r w true f before d h =
    let (x, e, done) = >>=-eq-ok before f h in (x, e, inl (refl, done))
when-eq-ok r w false f before d h = (d, h, inr (refl, refl))

-- POLLOUT at a channel that wants nothing.
handle_write-none : (w : Written) (c : TcpConnection) → c.events ≡ 0 → handle_write w c ≡ ok c
unfolding handle_write
handle_write-none w c h = rw h refl

-- The POLLOUT handler after the others.
write-Outcome :
    (w : Written) (b : Bool) (c x d : TcpConnection)
    → Outcome c x
    → ((b ≡ true) × (handle_write w x ≡ ok d)) ⊎ ((b ≡ false) × (x ≡ d))
    → Outcome c d
write-Outcome w b c x d o (inr (e, same)) = subst (λ y. Outcome c y) same o
write-Outcome w b c x d (inl s) (inl (e, done)) =
    inl (IsSame-trans c x d s (handle_write-IsSame w x d done))
write-Outcome w b c x d (inr k) (inl (e, done)) =
    subst (λ y. Outcome c y) (ok_injective (sym (handle_write-none w x k.wants_none) ∙ done))
      (inr k)

handlers-Outcome :
    (r : Readv) (w : Written) (revents : ℕ) (c d : TcpConnection)
    → is_answer revents ≡ true
    → handlers r w revents c ≡ ok d
    → Outcome c d
handlers-Outcome r w revents c d answer h =
    let fail = λ (x : TcpConnection). ok (emit handle_error x) in
    let b1 = any_bit revents 0x28 in
    let b2 = any_bit revents 0x10 && not (any_bit revents 0x01) in
    let b3 = any_bit revents 0x2003 in
    let b4 = any_bit revents 0x04 in
    let r1 = when r w b1 fail (ok c) in
    let r2 = when r w b2 handle_close r1 in
    let r3 = when r w b3 (handle_read r) r2 in
    let (x3, e3, last) = when-eq-ok r w b4 (handle_write w) r3 d h in
    let (x2, e2, third) = when-eq-ok r w b3 (handle_read r) r2 x3 e3 in
    let (x1, e1, second) = when-eq-ok r w b2 handle_close r1 x2 e2 in
    let (x0, e0, first) = when-eq-ok r w b1 fail (ok c) x1 e1 in
    write-Outcome w b4 c x3 d
      (middle b2 b3 x1 x2 x3 answer (failing b1 x0 x1 (ok_injective e0) first) second third) last
  where
    failing :
        (b : Bool) (x y : TcpConnection)
        → c ≡ x
        → ((b ≡ true) × (ok (emit handle_error x) ≡ ok y)) ⊎ ((b ≡ false) × (x ≡ y))
        → IsSame c y
    failing b x y e (inl (t, done)) =
        subst (λ z. IsSame c z) (ok_injective (ap (λ z. ok (emit handle_error z)) e ∙ done))
          (emit-IsSame handle_error c refl)
    failing b x y e (inr (t, same)) = subst (λ z. IsSame c z) (e ∙ same) (IsSame-refl c)

    middle :
        (b2 b3 : Bool) (x1 x2 x3 : TcpConnection)
        → not (b2 && b3) ≡ true
        → IsSame c x1
        → ((b2 ≡ true) × (handle_close x1 ≡ ok x2)) ⊎ ((b2 ≡ false) × (x1 ≡ x2))
        → ((b3 ≡ true) × (handle_read r x2 ≡ ok x3)) ⊎ ((b3 ≡ false) × (x2 ≡ x3))
        → Outcome c x3
    middle b2 b3 x1 x2 x3 a s (inl (t, closed)) (inl (u, done)) =
        let no : false ≡ true = sym (rw (t, u) refl) ∙ a in cc
    middle b2 b3 x1 x2 x3 a s (inl (t, closed)) (inr (u, same)) =
        subst (λ y. Outcome c y) same
          (inr (IsSame-IsClosing c x1 x2 s (handle_close-IsClosing x1 x2 closed)))
    middle b2 b3 x1 x2 x3 a s (inr (t, still)) (inl (u, done)) =
        IsSame-Outcome c x2 x3 (subst (λ y. IsSame c y) still s) (handle_read-Outcome r x2 x3 done)
    middle b2 b3 x1 x2 x3 a s (inr (t, still)) (inr (u, same)) =
        subst (λ y. Outcome c y) (still ∙ same) (inl s)

-- A call leaves the life of its connection alone; or it is an event that closes it, and poll(2) looked at
-- its channel.
pub run_call-Outcome :
    (k : Call) (p : Polled) (d : TcpConnection)
    → is_allowed k p ≡ true
    → run_call k p.tcp ≡ ok d
    → IsSame p.tcp d ⊎ ((p.polled ≡ true) × IsClosing p.tcp d)
unfolding run_call
run_call-Outcome (sends w m) p d a h = inl (send-IsSame w m p.tcp d h)
run_call-Outcome (sends_in_loop w m) p d a h = inl (send_in_loop-IsSame w m p.tcp d h)
run_call-Outcome shuts_down p d a h =
    inl (ok-IsSame p.tcp (shutdown p.tcp) d (shutdown-IsSame p.tcp) h)
run_call-Outcome begins_shutdown p d a h =
    inl (ok-IsSame p.tcp (begin_shutdown p.tcp) d (begin_shutdown-IsSame p.tcp) h)
run_call-Outcome shuts_down_in_loop p d a h =
    inl (ok-IsSame p.tcp (shutdown_in_loop p.tcp) d (shutdown_in_loop-IsSame p.tcp) h)
run_call-Outcome (happens r w revents) p d a h =
    let (looks, answer) = both p.polled (is_answer revents) a in
    elim (handlers-Outcome r w revents p.tcp d answer h) [ inl s ↦ inl s | inr k ↦ inr (looks, k) ]
  where
    both : (x y : Bool) → (x && y) ≡ true → (x ≡ true) × (y ≡ true)
    both true y e = (refl, e)
    both false y e = cc
