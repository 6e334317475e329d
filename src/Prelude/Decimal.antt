-- ===== src/Prelude/Decimal.antt =====
-- Decimal digits as characters, as `printf` writes them for "%u", "%d" and "%06d", and their value.
use Prim.Native.Nat.{ℕ, zero, suc, ◌+◌, ◌-◌, ◌*◌, ◌/◌, ◌%◌, ◌≤◌, ◌<◌}
use mathlib.Core.Path.{◌≡◌, refl, ap, ◌∙◌}
use mathlib.Core.Logic.{inl, inr}
use mathlib.Core.List.{List, [], ◌∷◌, ◌++◌}
use native.Mathlib.Omega.{arith}
use mtnet.Prelude.Tests.{ltb, if◌then◌else◌, Bool-cases}
use mtnet.Prelude.Lists.{length, length-append, replicate}
use mtnet.Prelude.Int.{ℤ, pos, negsuc}

abbrev pub decimal_from : (fuel n : ℕ) → List ℕ
decimal_from zero n = (48 + n % 10) ∷ []
decimal_from (suc fuel) n =
    let rest = decimal_from fuel (n / 10) in
    if ltb n 10 then (48 + n) ∷ [] else rest ++ (48 + n % 10) ∷ []

-- "%u".
abbrev pub decimal : ℕ → List ℕ
decimal n = decimal_from n n

-- "%d".
abbrev pub print_int : ℤ → List ℕ
print_int (pos n) = decimal n
print_int (negsuc n) = 45 ∷ decimal (suc n)

-- "%4d" and the like: at least `width` characters, with blanks in front.
abbrev pub print_wide : ℕ → ℤ → List ℕ
print_wide width n = replicate (width - length (print_int n)) 32 ++ print_int n

-- At least `width` digits.
abbrev pub padded : (width n : ℕ) → List ℕ
padded width n = replicate (width - length (decimal n)) 48 ++ decimal n

-- "%06d" and the like: the width counts the sign.
abbrev pub print_padded : ℕ → ℤ → List ℕ
print_padded width (pos n) = padded width n
print_padded width (negsuc n) = 45 ∷ padded (width - 1) (suc n)

-- The value of digits that follow others, whose value is `n`.
abbrev pub read_from : ℕ → List ℕ → ℕ
read_from n [] = n
read_from n (c ∷ cs) = read_from (n * 10 + (c - 48)) cs

-- Ten to the power of `k`.
abbrev pub power : ℕ → ℕ
power zero = 1
power (suc k) = 10 * power k

length-decimal_from : (fuel n k : ℕ) → n < power (suc k) → length (decimal_from fuel n) ≤ suc k
length-decimal_from zero n k h = omega arith
length-decimal_from (suc fuel) n zero h = ground arith
length-decimal_from (suc fuel) n (suc k) h =
    let ih = length-decimal_from fuel (n / 10) k (omega arith) in
    elim (Bool-cases (ltb n 10)) [
      | inl e ↦ rw e (omega arith)
      | inr e ↦
          rw e (omega (arith, length-append (decimal_from fuel (n / 10)) ((48 + n % 10) ∷ []), ih))
    ]

pub length-decimal : (n k : ℕ) → n < power (suc k) → length (decimal n) ≤ suc k
length-decimal n k h = length-decimal_from n n k h

read_from-append : (n : ℕ) (xs ys : List ℕ) → read_from n (xs ++ ys) ≡ read_from (read_from n xs) ys
read_from-append n [] ys = refl
read_from-append n (x ∷ xs) ys = read_from-append (n * 10 + (x - 48)) xs ys

read_from-decimal_from : (fuel n : ℕ) → n ≤ fuel → read_from 0 (decimal_from fuel n) ≡ n
read_from-decimal_from zero n h = omega arith
read_from-decimal_from (suc fuel) n h =
    let ih = read_from-decimal_from fuel (n / 10) (omega arith) in
    elim (Bool-cases (ltb n 10)) [
      | inl e ↦ rw e (omega arith)
      | inr e ↦ rw e (
          read_from-append 0 (decimal_from fuel (n / 10)) ((48 + n % 10) ∷ [])
          ∙ ap (λ x. x * 10 + (48 + n % 10 - 48)) ih
          ∙ omega arith)
    ]

read_from-zeros : (k : ℕ) (xs : List ℕ) → read_from 0 (replicate k 48 ++ xs) ≡ read_from 0 xs
read_from-zeros zero xs = refl
read_from-zeros (suc k) xs = read_from-zeros k xs

pub read_from-decimal : (n : ℕ) → read_from 0 (decimal n) ≡ n
read_from-decimal n = read_from-decimal_from n n (omega arith)

pub read_from-padded : (width n : ℕ) → read_from 0 (padded width n) ≡ n
read_from-padded width n =
    read_from-zeros (width - length (decimal n)) (decimal n) ∙ read_from-decimal n

abbrev pub AllDigits : List ℕ → Type 0
AllDigits [] = Unit
AllDigits (c ∷ cs) = (48 ≤ c) × AllDigits cs

append-AllDigits : (xs : List ℕ) (c : ℕ) → AllDigits xs → 48 ≤ c → AllDigits (xs ++ c ∷ [])
append-AllDigits [] c h k = (k, tt)
append-AllDigits (x ∷ xs) c (hx, hs) k = (hx, append-AllDigits xs c hs k)

decimal_from-AllDigits : (fuel n : ℕ) → AllDigits (decimal_from fuel n)
decimal_from-AllDigits zero n = (omega arith, tt)
decimal_from-AllDigits (suc fuel) n =
    let ih = decimal_from-AllDigits fuel (n / 10) in
    elim (Bool-cases (ltb n 10)) [
      | inl e ↦ rw e (omega arith, tt)
      | inr e ↦ rw e (append-AllDigits (decimal_from fuel (n / 10)) (48 + n % 10) ih (omega arith))
    ]

pub decimal-AllDigits : (n : ℕ) → AllDigits (decimal n)
decimal-AllDigits n = decimal_from-AllDigits n n
