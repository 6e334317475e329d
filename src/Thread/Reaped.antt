-- ===== src/Thread/Reaped.antt =====
-- A `Thread`'s thread is joined or detached, and its ids agree, in all interleavings.
use mtnet.Prelude.{
  ℕ, ◌≡◌, ◌≢◌, ◌⊎◌, refl, sym, ap, ◌∙◌, subst, inl, inr, List, [], ◌∷◌, ◌++◌, Bool, true, false,
  Option, none, some, ok, arith,
}
use mtnet.Thread.Defs.{
  Pthread, create, join, detach, Thread, init, start, join_thread, destroy, CurrentThread,
  new_thread, current_tid, enter, leave, name_or_default, finished,
}
use mtnet.Thread.Steps.{
  Child, absent, ready, running, ended, World, begin, Step, starts, enters, leaves, joins, destroys,
  Steps, here, next,
}

differ : true ≢ false
differ e = cc

-- `Child`s that differ.
abbrev is_absent : Child → Bool
is_absent absent = true
is_absent ready = false
is_absent running = false
is_absent ended = false

abbrev is_ended : Child → Bool
is_ended absent = false
is_ended ready = false
is_ended running = false
is_ended ended = true

start-fields :
    (t u : Thread) (handle : ℕ) (es : List Pthread)
    → start (some handle) t ≡ ok (u, es)
    → (t.started ≡ false)
      × (u.started ≡ true)
      × (u.joined ≡ t.joined)
      × (u.pthread_id ≡ handle)
      × (es ≡ create handle ∷ [])
unfolding start
start-fields t u handle es e = ground arith

join_thread-fields :
    (t u : Thread) (es : List Pthread)
    → join_thread t ≡ ok (u, es)
    → (t.started ≡ true)
      × (t.joined ≡ false)
      × (u.started ≡ true)
      × (u.joined ≡ true)
      × (u.pthread_id ≡ t.pthread_id)
      × (u.tid ≡ t.tid)
      × (es ≡ join t.pthread_id ∷ [])
unfolding join_thread
join_thread-fields t u es e = ground arith

module _ (id : ℕ) (name : List ℕ) where
  -- The id that the object has of the new thread.
  abbrev Known : Child → ℕ → Type 0
  Known absent tid = ⊥
  Known ready tid = Unit
  Known running tid = tid ≡ id
  Known ended tid = tid ≡ id

  abbrev Alive : Thread → Child → List Pthread → Type 0
  Alive t ch cs =
      ((t.started ≡ false) × (t.joined ≡ false) × (cs ≡ []) × (ch ≡ absent))
      ⊎ ((t.started ≡ true) × (t.joined ≡ false) × (cs ≡ create t.pthread_id ∷ []) × Known ch t.tid)
      ⊎ ((t.started ≡ true)
          × (t.joined ≡ true)
          × (cs ≡ create t.pthread_id ∷ join t.pthread_id ∷ [])
          × (ch ≡ ended)
          × (t.tid ≡ id))

  -- No thread was created, or it was joined after its end, or it was detached.
  abbrev pub Reaped : Child → List Pthread → Type 0
  Reaped ch cs =
      ((cs ≡ []) × (ch ≡ absent))
      ⊎ ((handle : ℕ) × (cs ≡ create handle ∷ join handle ∷ []) × (ch ≡ ended))
      ⊎ ((handle : ℕ) × (cs ≡ create handle ∷ detach handle ∷ []) × (ch ≢ absent))

  abbrev Life : Option Thread → Child → List Pthread → Type 0
  Life none ch cs = Reaped ch cs
  Life (some t) ch cs = Alive t ch cs

  start-Alive :
      (t u : Thread) (handle : ℕ) (es cs : List Pthread) (ch : Child)
      → start (some handle) t ≡ ok (u, es)
      → Alive t ch cs
      → (ch ≡ absent) × Alive u ready (cs ++ es)
  start-Alive t u handle es cs ch e h =
      let (was, started, joined, same, calls) = start-fields t u handle es e in
      elim h [
        | inl (s, j, c, a) ↦ (
          a,
          inr (
              inl (
                started,
                joined ∙ j,
                ap (λ x. x ++ es) c ∙ calls ∙ ap (λ i. create i ∷ []) (sym same),
                tt,
              )),
        )
        | inr (inl (s, j, c, k)) ↦ absurd (differ (sym s ∙ was))
        | inr (inr (s, j, c, a, k)) ↦ absurd (differ (sym s ∙ was))
      ]

  join-Alive :
      (t u : Thread) (es cs : List Pthread)
      → join_thread t ≡ ok (u, es)
      → Alive t ended cs
      → Alive u ended (cs ++ es)
  join-Alive t u es cs e h =
      let (was, pending, started, joined, handle, tid, calls) = join_thread-fields t u es e in
      elim h [
        | inl (s, j, c, a) ↦ absurd (differ (sym was ∙ s))
        | inr (inl (s, j, c, k)) ↦
            inr (inr (started, joined, rw (c, calls, handle) refl, refl, tid ∙ k))
        | inr (inr (s, j, c, a, k)) ↦ absurd (differ (sym j ∙ pending))
      ]

  destroy-Reaped :
      (t : Thread) (cs : List Pthread) (ch : Child) → Alive t ch cs → Reaped ch (cs ++ destroy t)
  unfolding destroy
  destroy-Reaped t cs ch (inl (s, j, c, a)) = inl (rw (c, s) refl, a)
  destroy-Reaped t cs ch (inr (inl (s, j, c, k))) =
      inr (inr (t.pthread_id, rw (c, s, j) refl, λ a. subst (λ x. Known x t.tid) a k))
  destroy-Reaped t cs ch (inr (inr (s, j, c, a, k))) =
      inr (inl (t.pthread_id, rw (c, s, j) refl, a))

  enter-Life :
      (o : Option Thread) (cs : List Pthread)
      → Life o ready cs
      → Life (enter id name new_thread o).1 running cs
  unfolding enter current_tid
  enter-Life none cs (inl (c, a)) = absurd (differ (sym (ap is_absent a)))
  enter-Life none cs (inr (inl (handle, c, a))) = absurd (differ (sym (ap is_ended a)))
  enter-Life none cs (inr (inr (handle, c, a))) =
      inr (inr (handle, c, λ b. differ (sym (ap is_absent b))))
  enter-Life (some t) cs (inl (s, j, c, a)) = absurd (differ (sym (ap is_absent a)))
  enter-Life (some t) cs (inr (inl (s, j, c, k))) = inr (inl (s, j, c, refl))
  enter-Life (some t) cs (inr (inr (s, j, c, a, k))) = absurd (differ (sym (ap is_ended a)))

  leave-Life : (o : Option Thread) (cs : List Pthread) → Life o running cs → Life o ended cs
  leave-Life none cs (inl (c, a)) = absurd (differ (sym (ap is_absent a)))
  leave-Life none cs (inr (inl (handle, c, a))) = absurd (differ (sym (ap is_ended a)))
  leave-Life none cs (inr (inr (handle, c, a))) =
      inr (inr (handle, c, λ b. differ (sym (ap is_absent b))))
  leave-Life (some t) cs (inl (s, j, c, a)) = absurd (differ (sym (ap is_absent a)))
  leave-Life (some t) cs (inr (inl (s, j, c, k))) = inr (inl (s, j, c, k))
  leave-Life (some t) cs (inr (inr (s, j, c, a, k))) = absurd (differ (sym (ap is_ended a)))

  -- What the new thread has of its own.
  abbrev pub Own : Child → CurrentThread → Type 0
  Own absent c = c ≡ new_thread
  Own ready c = c ≡ new_thread
  Own running c = (c.cached_tid ≡ id) × (c.thread_name ≡ name_or_default name)
  Own ended c = (c.cached_tid ≡ id) × (c.thread_name ≡ finished)

  enter-Own : (o : Option Thread) → Own running (enter id name new_thread o).0
  unfolding enter current_tid
  enter-Own o = (refl, refl)

  leave-Own : (c : CurrentThread) → c.cached_tid ≡ id → Own ended (leave c)
  unfolding leave
  leave-Own c e = (e, refl)

  abbrev IsSound : World → Type 0
  IsSound w = Own w.child w.own × Life w.object w.child w.calls

  Step-IsSound : {w v : World} → Step id name w v → IsSound w → IsSound v
  Step-IsSound (starts t u handle es w e) (own, life) =
      let (a, alive) = start-Alive t u handle es w.calls w.child e life in
      (subst (λ x. Own x w.own) a own, alive)
  Step-IsSound (enters o w) (own, life) =
      subst (λ c. Own running (enter id name c o).0 × Life (enter id name c o).1 running w.calls)
        (sym own) (enter-Own o, enter-Life o w.calls life)
  Step-IsSound (leaves w) (own, life) = (leave-Own w.own own.0, leave-Life w.object w.calls life)
  Step-IsSound (joins t u es w e) (own, life) = (own, join-Alive t u es w.calls e life)
  Step-IsSound (destroys t w) (own, life) = (own, destroy-Reaped t w.calls w.child life)

  Steps-IsSound : {w v : World} → Steps id name w v → IsSound w → IsSound v
  Steps-IsSound here s = s
  Steps-IsSound (next ss st) s = Step-IsSound st (Steps-IsSound ss s)

  -- In every interleaving of the owner of a `Thread` with the thread that it starts: once the object is
  -- destroyed, either no thread was created, or the one thread that was created was joined once, and
  -- not detached, after it had ended, or it was detached once, and not joined.
  pub destroyed-Reaped :
      {v : World} → Steps id name (begin name) v → v.object ≡ none → Reaped v.child v.calls
  unfolding init
  destroyed-Reaped {v} ss e =
      let (own, life) = Steps-IsSound ss (refl, inl (refl, refl, refl, refl)) in
      subst (λ o. Life o v.child v.calls) e life

  current_tid-cached : (c : CurrentThread) → c.cached_tid ≡ id → (current_tid id c).0 ≡ id
  unfolding current_tid
  current_tid-cached c e = ground arith

  -- The object knows the id of a thread that has entered its function.
  entered-tid :
      (t : Thread) (ch : Child) (cs : List Pthread)
      → (ch ≡ running) ⊎ (ch ≡ ended)
      → Alive t ch cs
      → (t.started ≡ true) × (t.tid ≡ id)
  entered-tid t ch cs (inl r) (inl (s, j, c, a)) = absurd (differ (sym (ap is_absent (sym r ∙ a))))
  entered-tid t ch cs (inr r) (inl (s, j, c, a)) = absurd (differ (sym (ap is_absent (sym r ∙ a))))
  entered-tid t ch cs (inl r) (inr (inl (s, j, c, k))) = (s, subst (λ x. Known x t.tid) r k)
  entered-tid t ch cs (inr r) (inr (inl (s, j, c, k))) = (s, subst (λ x. Known x t.tid) r k)
  entered-tid t ch cs r (inr (inr (s, j, c, a, k))) = (s, k)

  entered-cached :
      (ch : Child) (c : CurrentThread)
      → (ch ≡ running) ⊎ (ch ≡ ended)
      → Own ch c
      → c.cached_tid ≡ id
  entered-cached ch c (inl r) own = (subst (λ x. Own x c) r own).0
  entered-cached ch c (inr r) own = (subst (λ x. Own x c) r own).0

  -- In every such interleaving, while the object exists and the thread's function runs or has ended:
  -- the object was started, `tid()` returns the id of the new thread, and so does
  -- `CurrentThread::tid()` in the new thread.
  pub running-tid :
      {v : World} (t : Thread)
      → Steps id name (begin name) v
      → v.object ≡ some t
      → (v.child ≡ running) ⊎ (v.child ≡ ended)
      → (t.started ≡ true) × (t.tid ≡ id) × ((current_tid id v.own).0 ≡ id)
  unfolding init
  running-tid {v} t ss e runs =
      let (own, life) = Steps-IsSound ss (refl, inl (refl, refl, refl, refl)) in
      let alive : Alive t v.child v.calls = subst (λ o. Life o v.child v.calls) e life in
      let (started, tid) = entered-tid t v.child v.calls runs alive in
      (started, tid, current_tid-cached v.own (entered-cached v.child v.own runs own))
