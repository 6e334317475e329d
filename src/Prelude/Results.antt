-- ===== src/Prelude/Results.antt =====
-- Code that can stop: a failed `assert`, a standard container that throws, an access that C++ leaves
-- undefined. The result type, its bind and its guard.
use mathlib.Core.Path.{◌≡◌, refl, ap}
use mathlib.Core.Bool.{Bool, true, false}

pub data Fault : Type 0 where
  assertion length_error out_of_bounds aborted : Fault

pub data Result {ℓ} (A : Type ℓ) : Type ℓ where
  err : Fault → Result A
  ok : A → Result A

-- `assert(b)` and the like.
abbrev pub guard : (holds : Bool) → Fault → Result (Unit {0})
guard false fault = err fault
guard true fault = ok tt

infixl 5 ◌>>=◌ ◌>>◌
abbrev pub ◌>>=◌ {ℓ κ} : {A : Type ℓ} {B : Type κ} → Result A → (A → Result B) → Result B
err fault >>= f = err fault
ok a >>= f = f a

abbrev pub ◌>>◌ {ℓ κ} : {A : Type ℓ} {B : Type κ} → Result A → Result B → Result B
first >> second = first >>= λ a. second

pub >>=-eq-ok {ℓ κ} :
    {A : Type ℓ} {B : Type κ} (r : Result A) (after : A → Result B) {b : B}
    → (r >>= after) ≡ ok b
    → (a : A) × (r ≡ ok a) × (after a ≡ ok b)
>>=-eq-ok (err fault) after e = cc
>>=-eq-ok (ok a) after e = (a, refl, e)

or_default {ℓ} : {A : Type ℓ} → A → Result A → A
or_default a (err fault) = a
or_default a (ok b) = b

pub ok_injective {ℓ} : {A : Type ℓ} {a b : A} → ok a ≡ ok b → a ≡ b
unfolding or_default
ok_injective {a = a} e = ap (or_default a) e
