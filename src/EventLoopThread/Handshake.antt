-- ===== src/EventLoopThread/Handshake.antt =====
-- All interleavings of `startLoop` with the new thread's `threadFunc`, to its end.
use mtnet.Prelude.{
  ℕ, ◌≡◌, ◌⊎◌, refl, sym, ap, ◌∙◌, subst, arith, inl, inr, true, false, Option, none, some, ok, err,
  out_of_bounds, Bool-cases, if◌then◌else◌,
}
use mtnet.EventLoopThread.{
  EventLoopThread, init, begin_start_loop, is_null, is_waiting, publish, finish, destroy,
}

-- Where the caller of `startLoop` is; it returns `loop_`, which is null in C++ where it is none here.
pub data Caller : Type 0 where
  before waiting : Caller
  returned : Option ℕ → Caller

pub record World : Type 0 where
  pub thread : EventLoopThread
  pub caller : Caller

abbrev pub start : World
start = record { thread = init; caller = before }

-- `address` is that of the new thread's loop. The condition variable may wake the caller at any time:
-- a wait that ends too early tests the condition again, and changes nothing. Once the address is
-- published the new thread is in `loop()`, which can return at any time, since any functor or handler
-- of the loop and any thread that has its address can call its `quit`.
pub data Step (address : ℕ) (w : World) : World → Type 0 where
  calls :
      (t : EventLoopThread)
      → w.caller ≡ before
      → begin_start_loop w.thread ≡ ok t
      → Step address w (record { thread = t; caller = waiting })
  publishes :
      w.thread.started ≡ true
      → is_null w.thread.loop ≡ true
      → Step address w (record w { thread = publish address w.thread })
  returns :
      w.caller ≡ waiting
      → is_waiting w.thread ≡ false
      → Step address w (record w { caller = returned w.thread.loop })
  ends : is_null w.thread.loop ≡ false → Step address w (record w { thread = finish w.thread })

pub data Steps (address : ℕ) (w : World) : World → Type 0 where
  here : Steps address w w
  next : {u v : World} → Steps address w u → Step address u v → Steps address w v

abbrev Published : ℕ → Option ℕ → Type 0
Published address o = (o ≡ none) ⊎ (o ≡ some address)

abbrev Right : ℕ → EventLoopThread → Caller → Type 0
Right address t before = Unit
Right address t waiting = t.started ≡ true
Right address t (returned o) = (o ≡ some address) × (t.loop ≡ some address)

record IsRight (address : ℕ) (w : World) : Type 0 where
  loop : Published address w.thread.loop
  caller : Right address w.thread w.caller

begin_start_loop-loop : (s t : EventLoopThread) → begin_start_loop s ≡ ok t → t.loop ≡ s.loop
unfolding begin_start_loop
begin_start_loop-loop s t h = ground arith

begin_start_loop-started : (s t : EventLoopThread) → begin_start_loop s ≡ ok t → t.started ≡ true
unfolding begin_start_loop
begin_start_loop-started s t h = ground arith

publish-Right :
    (address : ℕ) (t : EventLoopThread) (c : Caller)
    → Right address t c
    → Right address (publish address t) c
unfolding publish
publish-Right address t before r = tt
publish-Right address t waiting r = r
publish-Right address t (returned o) r = (r.0, refl)

finish-Right :
    (address : ℕ) (t : EventLoopThread) (c : Caller)
    → Right address t c
    → Right address (finish t) c
unfolding finish
finish-Right address t before r = tt
finish-Right address t waiting r = r
finish-Right address t (returned o) r = r

-- A caller that may return finds the right address.
found :
    (address : ℕ) (o : Option ℕ)
    → Published address o
    → is_null o ≡ false
    → (o ≡ some address) × (o ≡ some address)
found address o (inl e) h = let p : true ≡ false = ap is_null (sym e) ∙ h in absurd (true-false p)
  where
    true-false : true ≡ false → ⊥
    true-false p = cc
found address o (inr e) h = (e, e)

Step-IsRight :
    {address : ℕ} {w v : World} → IsRight address w → Step address w v → IsRight address v
unfolding publish finish
Step-IsRight {address} {w} r (calls t e done) = record {
  loop = subst (Published address) (sym (begin_start_loop-loop w.thread t done)) r.loop;
  caller = begin_start_loop-started w.thread t done;
}
Step-IsRight {address} {w} r (publishes e unset) = record {
  loop = inr refl;
  caller = publish-Right address w.thread w.caller r.caller;
}
Step-IsRight {address} {w} r (returns e waited) = record {
  loop = r.loop;
  caller = found address w.thread.loop r.loop waited;
}
Step-IsRight {address} {w} r (ends e) = record {
  loop = r.loop;
  caller = finish-Right address w.thread w.caller r.caller;
}

Steps-IsRight :
    {address : ℕ} {w v : World} → IsRight address w → Steps address w v → IsRight address v
Steps-IsRight r here = r
Steps-IsRight r (next ss s) = Step-IsRight (Steps-IsRight r ss) s

start-IsRight : (address : ℕ) → IsRight address start
unfolding init
start-IsRight address = record { loop = inl refl; caller = tt }

-- In every interleaving of `startLoop` with the new thread, if `startLoop` has returned then it
-- returned the address of the new thread's loop, never null. The destructor then calls `quit` on that
-- loop if the new thread is still in its function; but if the loop was quit before and the function
-- has ended, the destructor calls `quit` on a loop that is gone.
pub returned-destroy :
    (address : ℕ) (o : Option ℕ) {v : World}
    → Steps address start v
    → v.caller ≡ returned o
    → (o ≡ some address)
      × (destroy v.thread ≡ (
          if v.thread.ended
          then err out_of_bounds
          else ok (record v.thread { exiting = true }, address)))
unfolding destroy
returned-destroy address o {v} ss e =
    let r = Steps-IsRight (start-IsRight address) ss in
    let right : Right address v.thread (returned o) = subst (Right address v.thread) e r.caller in
    (
      right.0,
      elim (Bool-cases v.thread.ended) [
        | inl gone ↦ rw (right.1, gone) refl
        | inr there ↦ rw (right.1, there) refl
      ],
    )

-- Whenever `startLoop` waits, the new thread can go on so that `startLoop` returns the address of its
-- loop: the handshake has no deadlock.
pub waiting-returned :
    (address : ℕ) {v : World}
    → Steps address start v
    → v.caller ≡ waiting
    → (u : World) × Steps address v u × (u.caller ≡ returned (some address))
unfolding publish
waiting-returned address {v} ss e =
    let r = Steps-IsRight (start-IsRight address) ss in
    let started : Right address v.thread waiting = subst (Right address v.thread) e r.caller in
    elim r.loop [
      | inl unset ↦ (
        record { thread = publish address v.thread; caller = returned (some address) },
        next (next here (publishes started (ap is_null unset))) (returns e refl),
        refl,
      )
      | inr set ↦ (
        record v { caller = returned v.thread.loop },
        next here (returns e (ap is_null set)),
        ap returned set,
      )
    ]
