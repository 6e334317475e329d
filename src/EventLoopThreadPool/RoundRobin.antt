-- ===== src/EventLoopThreadPool/RoundRobin.antt =====
-- Connections are dealt out to the loops in turn.
use native.Mathlib.Nat.{mod-add-mod, mod-lt, mod_self, mod-eq_of_lt}
use mtnet.Prelude.{
  ℕ, zero, suc, ◌+◌, ◌%◌, ◌≡◌, ◌<◌, refl, sym, ap, ◌∙◌, inl, inr, List, [], ◌∷◌, false, leb, some,
  length, get_elem?, get_elem?-some, Result, ok, ◌>>=◌, arith, if◌then◌else◌, Bool-cases, leb→le,
}
use mtnet.EventLoopThreadPool.{EventLoopThreadPool, get_next_loop, is_empty}

-- A pool with threads, whose next loop is one of them.
pub record IsDealing (p : EventLoopThreadPool) : Type 0 where
  pub threads : 0 < length p.loops
  pub inside : p.next < length p.loops

abbrev pub advanced : EventLoopThreadPool → EventLoopThreadPool
advanced p = record p { next = (p.next + 1) % length p.loops }

not-empty : (ls : List ℕ) → 0 < length ls → is_empty ls ≡ false
not-empty [] h = elim h [ ]
not-empty (l ∷ ls) h = refl

wrap : (n i : ℕ) → i < n → (if leb n (i + 1) then 0 else i + 1) ≡ (i + 1) % n
wrap n i h = elim (Bool-cases (leb n (i + 1))) [
  | inl full ↦
      let e : i + 1 ≡ n = omega (arith, leb→le n (i + 1) full) in
      rw full (sym (ap (λ m. m % n) e ∙ mod_self n))
  | inr room ↦ rw room (sym (mod-eq_of_lt (ground arith)))
]

-- What the later calls return, seen from the first.
dealt :
    (loops ls : List ℕ) (j k l : ℕ)
    → j < length loops
    → get_elem? loops j ≡ some l
    → ((i : ℕ)
        → i < k
        → get_elem? ls i ≡ get_elem? loops (((j + 1) % length loops + i) % length loops))
    → (i : ℕ) → i < suc k
    → get_elem? (l ∷ ls) i ≡ get_elem? loops ((j + i) % length loops)
dealt loops ls j k l inside here rest zero h =
    let e : (j + 0) % length loops ≡ j =
      ap (λ n. n % length loops) (omega arith) ∙ mod-eq_of_lt inside in
    rw (e, here)
dealt loops ls j k l inside here rest (suc i) h =
    let e : ((j + 1) % length loops + i) % length loops ≡ (j + suc i) % length loops =
      mod-add-mod (j + 1) (length loops) i ∙ ap (λ n. n % length loops) (omega arith) in
    rest i (omega arith) ∙ ap (get_elem? loops) e

pub get_next_loop_lem :
    (p : EventLoopThreadPool)
    → IsDealing p
    → (l : ℕ) × (get_elem? p.loops p.next ≡ some l) × (get_next_loop p ≡ ok (l, advanced p))
unfolding get_next_loop
get_next_loop_lem p v =
    let (l, here) = get_elem?-some p.loops p.next v.inside in
    (l, here, rw (not-empty p.loops v.threads, here, wrap (length p.loops) p.next v.inside))

pub advanced-IsDealing : (p : EventLoopThreadPool) → IsDealing p → IsDealing (advanced p)
advanced-IsDealing p v = record { threads = v.threads; inside = mod-lt (p.next + 1) v.threads }

-- Several calls, and the loops that they return.
pub deal : ℕ → EventLoopThreadPool → Result (List ℕ × EventLoopThreadPool)
deal zero p = ok ([], p)
deal (suc k) p = get_next_loop p >>= λ r. deal k r.1 >>= λ s. ok (r.0 ∷ s.0, s.1)

-- Whatever the number of calls of `getNextLoop` on a pool with threads, none reads outside
-- `loops_`, the i-th of them returns the loop that stands i places after the next one, going round
-- at the end, and `next_` stays inside.
pub deal_lem :
    (k : ℕ) (p : EventLoopThreadPool)
    → IsDealing p
    → (ls : List ℕ) × (q : EventLoopThreadPool) × (deal k p ≡ ok (ls, q))
      × IsDealing q
      × (length ls ≡ k)
      × ((i : ℕ) → i < k → get_elem? ls i ≡ get_elem? p.loops ((p.next + i) % length p.loops))
unfolding deal
deal_lem zero p v = ([], p, refl, v, refl, λ i h. elim h [ ])
deal_lem (suc k) p v =
    let (l, here, done) = get_next_loop_lem p v in
    let v' = advanced-IsDealing p v in
    let (ls, q, rest, vq, len, at) = deal_lem k (advanced p) v' in
    (l ∷ ls, q, rw (done, deal, rest), vq, ap suc len, dealt p.loops ls p.next k l v.inside here at)
