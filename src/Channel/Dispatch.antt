-- ===== src/Channel/Dispatch.antt =====
-- Which callbacks `handelEvent` of mtnet/Channel.cc runs, and in which order.
use mtnet.Prelude.{
  ℕ, ◌≡◌, refl, sym, ap, Bool, true, false, not, ◌&&◌, List, [], ◌∷◌, ◌++◌, Option, none, some,
  append-nil, append_assoc,
}
use mtnet.Prelude.Int.{ℤ}
use mtnet.Channel.{Channel, any_bit, handel_event, run_if}

-- One call of a callback; the read callback is given the time of the poll.
pub data Called : Type 0 where
  called : ℕ → Called
  called_read : ℕ → ℤ → Called

-- A channel, and the calls so far, oldest first.
abbrev pub Logged : Type 0
Logged = Channel × List Called

abbrev pub self : Logged → Channel
self (c, l) = c

abbrev pub store : Channel → Logged → Logged
store d (c, l) = (d, l)

abbrev pub call : ℕ → Logged → Logged
call f (c, l) = (c, l ++ called f ∷ [])

abbrev pub call_read : ℕ → ℤ → Logged → Logged
call_read f t (c, l) = (c, l ++ called_read f t ∷ [])

-- The call of a callback that is set, if its condition holds.
abbrev pub call_if : Bool → Option ℕ → (ℕ → Called) → List Called
call_if false o f = []
call_if true none f = []
call_if true (some n) f = f n ∷ []

run_if-call :
    (b : Bool) (o : Option ℕ) (c : Channel) (l : List Called)
    → run_if self store call call_read b o call (c, l) ≡ (c, l ++ call_if b o called)
run_if-call false o c l = ap (λ k. (c, k)) (sym (append-nil l))
run_if-call true none c l = ap (λ k. (c, k)) (sym (append-nil l))
run_if-call true (some f) c l = refl

run_if-call_read :
    (b : Bool) (o : Option ℕ) (t : ℤ) (c : Channel) (l : List Called)
    → run_if self store call call_read b o (λ f. call_read f t) (c, l)
      ≡ (c, l ++ call_if b o (λ f. called_read f t))
run_if-call_read false o t c l = ap (λ k. (c, k)) (sym (append-nil l))
run_if-call_read true none t c l = ap (λ k. (c, k)) (sym (append-nil l))
run_if-call_read true (some f) t c l = refl

-- The calls for given event bits: on POLLERR or POLLNVAL, on POLLHUP without POLLIN, on POLLIN,
-- POLLPRI or POLLRDHUP, and on POLLOUT.
abbrev pub calls_for : Channel → ℤ → List Called
calls_for c t =
    call_if (any_bit c.revents 0x28) c.error_callback called
    ++ (call_if (any_bit c.revents 0x10 && not (any_bit c.revents 0x01)) c.close_callback called
        ++ (call_if (any_bit c.revents 0x2003) c.read_callback (λ f. called_read f t)
            ++ call_if (any_bit c.revents 0x04) c.write_callback called))

-- One `handelEvent`, with callbacks that leave the channel alone, calls the error, the close, the
-- read and the write callback, in this order, each at most once: the error callback on POLLERR or
-- POLLNVAL, the close callback on POLLHUP without POLLIN, the read callback, with the time of the
-- poll, on POLLIN, POLLPRI or POLLRDHUP, and the write callback on POLLOUT. A callback that is not
-- set is passed over. The channel is left as it was, and not handling an event.
pub handel_event_lem :
    (t : ℤ) (c : Channel)
    → handel_event self store call call_read t (c, [])
      ≡ (record c { event_handling = false }, calls_for c t)
unfolding handel_event
handel_event_lem t c =
    let d = record c { event_handling = true } in
    let l1 = call_if (any_bit c.revents 0x28) c.error_callback called in
    let close = any_bit c.revents 0x10 && not (any_bit c.revents 0x01) in
    let l2 = call_if close c.close_callback called in
    let l3 = call_if (any_bit c.revents 0x2003) c.read_callback (λ f. called_read f t) in
    rw (
      run_if-call (any_bit c.revents 0x28) c.error_callback d [],
      run_if-call close c.close_callback d l1,
      run_if-call_read (any_bit c.revents 0x2003) c.read_callback t d (l1 ++ l2),
      run_if-call (any_bit c.revents 0x04) c.write_callback d ((l1 ++ l2) ++ l3),
      append_assoc (l1 ++ l2) l3,
      append_assoc l1 l2,
    )
