-- ===== src/TimerQueue/Order.antt =====
-- The order of the set of timers, and the set operations.
use mathlib.Core.List.{Perm}
use mathlib.Core.List.Perm
use mtnet.Prelude.{
  ℕ, ◌≡◌, ◌≢◌, refl, sym, inl, inr, true, false, List, [], ◌∷◌, ◌++◌, arith, Bool-cases,
}
use mtnet.Prelude.Int.{◌≤ℤ◌}
use mtnet.TimerQueue.Defs.{Entry, entry_lt, set_insert, later_or_end}

pub entry_lt_trans :
    (a b c : Entry) → entry_lt a b ≡ true → entry_lt b c ≡ true → entry_lt a c ≡ true
entry_lt_trans a b c h k = ground arith

-- Entries of different timers are ordered.
pub entry_lt_total : (a b : Entry) → a.timer ≢ b.timer → entry_lt a b ≡ false → entry_lt b a ≡ true
entry_lt_total a b ne h = ground arith

pub entry_lt-time : (a b : Entry) → entry_lt a b ≡ true → a.time ≤ℤ b.time
entry_lt-time a b h = ground arith

abbrev pub All {ℓ} : (Entry → Type ℓ) → List Entry → Type ℓ
All P [] = Unit
All P (x ∷ xs) = P x × All P xs

pub All-map {ℓ κ} :
    (P : Entry → Type ℓ) (Q : Entry → Type κ) (l : List Entry)
    → ((e : Entry) → P e → Q e)
    → All P l
    → All Q l
All-map P Q [] f h = tt
All-map P Q (x ∷ xs) f h = (f x h.0, All-map P Q xs f h.1)

pub All-append_left {ℓ} : (P : Entry → Type ℓ) (xs ys : List Entry) → All P (xs ++ ys) → All P xs
All-append_left P [] ys h = tt
All-append_left P (x ∷ xs) ys h = (h.0, All-append_left P xs ys h.1)

pub All-append_right {ℓ} : (P : Entry → Type ℓ) (xs ys : List Entry) → All P (xs ++ ys) → All P ys
All-append_right P [] ys h = h
All-append_right P (x ∷ xs) ys h = All-append_right P xs ys h.1

abbrev pub Before : Entry → Entry → Type 0
Before a b = entry_lt a b ≡ true

-- Each entry stands before all that follow it.
abbrev pub Sorted : List Entry → Type 0
Sorted [] = Unit
Sorted (x ∷ xs) = All (Before x) xs × Sorted xs

abbrev pub Apart : ℕ → Entry → Type 0
Apart p e = e.timer ≢ p

pub set_insert-All {ℓ} :
    (P : Entry → Type ℓ) (e : Entry) (l : List Entry) → P e → All P l → All P (set_insert e l).0
unfolding set_insert
set_insert-All P e [] h k = (h, tt)
set_insert-All P e (x ∷ xs) h k = elim (Bool-cases (entry_lt e x)) [
  | inl first ↦ rw (first, set_insert) (h, k)
  | inr later ↦ elim (Bool-cases (entry_lt x e)) [
    | inl p ↦ rw (later, p, set_insert) (k.0, set_insert-All P e xs h k.1)
    | inr p ↦ rw (later, p, set_insert) k
  ]
]

-- A new timer is inserted, and the set stays sorted.
pub set_insert-Sorted :
    (e : Entry) (l : List Entry)
    → All (Apart e.timer) l
    → Sorted l
    → Sorted (set_insert e l).0 × ((set_insert e l).1 ≡ true) × Perm (set_insert e l).0 (e ∷ l)
unfolding set_insert
set_insert-Sorted e [] h s = ((tt, tt), refl, Perm.refl (e ∷ []))
set_insert-Sorted e (x ∷ xs) h s = elim (Bool-cases (entry_lt e x)) [
  | inl first ↦
      rw (first, set_insert)
        (
          ((first, All-map (Before x) (Before e) xs (λ y k. entry_lt_trans e x y first k) s.0), s),
          refl,
          Perm.refl (e ∷ x ∷ xs),
        )
  | inr later ↦
      let p = entry_lt_total e x (λ q. h.0 (sym q)) later in
      let (sorted, new, perm) = set_insert-Sorted e xs h.1 s.1 in
      rw (later, p, set_insert)
        (
          (set_insert-All (Before x) e xs p s.0, sorted),
          new,
          Perm.trans (Perm.cons x perm) (Perm.swap e x xs),
        )
]

-- An entry before all others is inserted at the front.
pub set_insert-front :
    (e : Entry) (l : List Entry) → later_or_end e.time l ≡ true → (set_insert e l).0 ≡ e ∷ l
unfolding set_insert
set_insert-front e [] h = refl
set_insert-front e (x ∷ xs) h = let p : entry_lt e x ≡ true = ground arith in rw (p, set_insert)
