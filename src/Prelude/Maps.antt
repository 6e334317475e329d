-- ===== src/Prelude/Maps.antt =====
-- Finite maps and stores as functions, with the update of one key.
use Prim.Native.Nat.{ℕ}
use mathlib.Core.Path.{◌≡◌, refl, sym, ◌∙◌}
use mathlib.Core.Logic.{◌≢◌, ◌⊎◌, inl, inr}
use mathlib.Core.Bool.{true, false}
use native.Mathlib.Decide.{ℕ_discrete}
use mtnet.Prelude.Tests.{◌==◌, ==_iff, if◌then◌else◌, Bool-cases}
use mtnet.Prelude.Int.{ℤ, eqb_ℤ, eqb_ℤ_iff}

module _ {ℓ} {A : Type ℓ} where
  -- A store of objects by address.
  abbrev pub update : (ℕ → A) → ℕ → A → ℕ → A
  update f k v j = if j == k then v else f j

  -- A `std::map` keyed by `int`.
  abbrev pub update_ℤ : (ℤ → A) → ℤ → A → ℤ → A
  update_ℤ f k v j = if eqb_ℤ j k then v else f j

  pub update_self : (f : ℕ → A) (k : ℕ) (v : A) → update f k v k ≡ v
  update_self f k v = rw ((==_iff k k).1 (λ _. k))

  pub update_ne : (f : ℕ → A) (k : ℕ) (v : A) (j : ℕ) → j ≢ k → update f k v j ≡ f j
  update_ne f k v j h = elim (Bool-cases (j == k)) [
    | inl e ↦ absurd (h ((==_iff j k).0 e))
    | inr e ↦ rw e
  ]

  pub update-update : (f : ℕ → A) (k : ℕ) (v w : A) → update (update f k v) k w ≡ update f k w
  update-update f k v w = λ i j. pointwise j i
    where
      pointwise : (j : ℕ) → update (update f k v) k w j ≡ update f k w j
      pointwise j = elim (Bool-cases (j == k)) [ inl e ↦ rw e refl | inr e ↦ rw e refl ]

  pub update_ℤ_self : (f : ℤ → A) (k : ℤ) (v : A) → update_ℤ f k v k ≡ v
  update_ℤ_self f k v = rw ((eqb_ℤ_iff k k).1 (λ _. k))

  pub update_ℤ_ne : (f : ℤ → A) (k : ℤ) (v : A) (j : ℤ) → j ≢ k → update_ℤ f k v j ≡ f j
  update_ℤ_ne f k v j h = elim (Bool-cases (eqb_ℤ j k)) [
    | inl e ↦ absurd (h ((eqb_ℤ_iff j k).0 e))
    | inr e ↦ rw e
  ]

pub ℕ-cases : (a b : ℕ) → (a ≡ b) ⊎ (a ≢ b)
ℕ-cases a b = elim (ℕ_discrete a b) [ yes e ↦ inl e | no e ↦ inr e ]

pub ℤ-cases : (a b : ℤ) → (a ≡ b) ⊎ (a ≢ b)
ℤ-cases a b = elim (Bool-cases (eqb_ℤ a b)) [
  | inl e ↦ inl ((eqb_ℤ_iff a b).0 e)
  | inr e ↦ inr (λ p. absurd_bool (sym ((eqb_ℤ_iff a b).1 p) ∙ e))
]
  where
    absurd_bool : true ≡ false → ⊥
    absurd_bool h = cc
