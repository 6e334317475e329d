-- ===== src/Prelude/Bags.antt =====
-- Lists from which an element is taken at any place: counting, and the taking.
use Prim.Native.Nat.{ℕ, zero, suc, ◌+◌}
use mathlib.Core.Path.{◌≡◌, refl, ap}
use mathlib.Core.Bool.{Bool, true, false}
use mathlib.Core.Option.{Option, none, some}
use mathlib.Core.List.{List, [], ◌∷◌, ◌++◌}
use native.Mathlib.Omega.{arith}
use mtnet.Prelude.Lists.{replicate}
use mtnet.Prelude.Options.{some_injective, none-ne-some}

abbrev pub bit : Bool → ℕ
bit true = 1
bit false = 0

module _ {ℓ} {A : Type ℓ} where
  abbrev pub count : (A → Bool) → List A → ℕ
  count f [] = 0
  count f (x ∷ xs) = bit (f x) + count f xs

  abbrev pub keep : A → Option (A × List A) → Option (A × List A)
  keep x none = none
  keep x (some (y, ys)) = some (y, x ∷ ys)

  -- The element at a place, and the others.
  abbrev pub take_at : ℕ → List A → Option (A × List A)
  take_at i [] = none
  take_at zero (x ∷ xs) = some (x, xs)
  take_at (suc i) (x ∷ xs) = keep x (take_at i xs)

  pub count-append : (f : A → Bool) (xs ys : List A) → count f (xs ++ ys) ≡ count f xs + count f ys
  count-append f [] ys = omega arith
  count-append f (x ∷ xs) ys = omega (arith, count-append f xs ys)

  pub count-replicate : (f : A → Bool) (n : ℕ) (a : A) → f a ≡ false → count f (replicate n a) ≡ 0
  count-replicate f zero a h = refl
  count-replicate f (suc n) a h =
      let ih = count-replicate f n a h in let z : bit (f a) ≡ 0 = ap bit h in omega (arith, ih, z)

  pub count-take_at :
      (f : A → Bool) (i : ℕ) (xs : List A) (x : A) (rest : List A)
      → take_at i xs ≡ some (x, rest)
      → count f xs ≡ bit (f x) + count f rest
  count-take_at f i [] x rest h = absurd (none-ne-some refl h)
  count-take_at f zero (y ∷ ys) x rest h =
      let e : (y, ys) ≡ (x, rest) = some_injective h in
      ap (λ (p : A × List A). bit (f p.0) + count f p.1) e
  count-take_at f (suc i) (y ∷ ys) x rest h =
      go (take_at i ys) (λ z zs. count-take_at f i ys z zs) h
    where
      go :
          (o : Option (A × List A))
          → ((z : A) (zs : List A) → o ≡ some (z, zs) → count f ys ≡ bit (f z) + count f zs)
          → keep y o ≡ some (x, rest)
          → count f (y ∷ ys) ≡ bit (f x) + count f rest
      go none e k = absurd (none-ne-some refl k)
      go (some (z, zs)) e k =
          let p : (z, y ∷ zs) ≡ (x, rest) = some_injective k in
          let q = ap (λ (r : A × List A). bit (f r.0) + count f r.1) p in
          let ih = e z zs refl in omega (arith, q, ih)
