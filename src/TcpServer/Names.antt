-- ===== src/TcpServer/Names.antt =====
-- The names of connections as keys of `connections_`.
use mtnet.Prelude.{
  ℕ, ◌≡◌, ◌↔◌, refl, sym, ap, ◌∙◌, true, false, ◌==◌, ==_iff, List, [], ◌∷◌, Bool-cases, inl, inr,
}
use mtnet.TcpServer.Defs.{eqb_name, update_name}

eqb_name_eq : (xs ys : List ℕ) → eqb_name xs ys ≡ true → xs ≡ ys
eqb_name_eq [] [] h = refl
eqb_name_eq [] (y ∷ ys) h = cc
eqb_name_eq (x ∷ xs) [] h = cc
eqb_name_eq (x ∷ xs) (y ∷ ys) h = elim (Bool-cases (x == y)) [
  | inl e ↦
      let p : eqb_name xs ys ≡ true = sym (rw e refl) ∙ h in
      let q : x ≡ y = (==_iff x y).0 e in let r : xs ≡ ys = eqb_name_eq xs ys p in cc
  | inr e ↦ let p : false ≡ true = sym (rw e refl) ∙ h in cc
]

eqb_name_refl : (xs : List ℕ) → eqb_name xs xs ≡ true
eqb_name_refl [] = refl
eqb_name_refl (x ∷ xs) = rw ((==_iff x x).1 refl) (eqb_name_refl xs)

module _ {ℓ} {A : Type ℓ} where
  pub update_name_self : (f : List ℕ → A) (k : List ℕ) (a : A) → update_name f k a k ≡ a
  update_name_self f k a = rw (eqb_name_refl k)

  pub update_name_ne :
      (f : List ℕ → A) (k : List ℕ) (a : A) (n : List ℕ)
      → eqb_name n k ≡ false
      → update_name f k a n ≡ f n
  update_name_ne f k a n h = rw h

pub eqb_name_iff : (xs ys : List ℕ) → (eqb_name xs ys ≡ true) ↔ (xs ≡ ys)
eqb_name_iff xs ys = (eqb_name_eq xs ys, λ e. ap (eqb_name xs) (sym e) ∙ eqb_name_refl xs)
