-- ===== src/Timestamp/Print.antt =====
-- The two printing functions of base/Timestamp.cc. `gmtime_r` is a parameter.
use mtnet.Prelude.{
  ℕ, zero, suc, ◌+◌, ◌*◌, ◌/◌, ◌%◌, List, [], ◌∷◌, ◌++◌, ◌==◌, length, take, Option, none, some,
  if◌then◌else◌,
}
use mtnet.Prelude.Int.{ℤ, pos, negsuc, ◌+ℤ◌}
use mtnet.Prelude.Decimal.{print_int, print_wide, print_padded, read_from}
use mtnet.Timestamp.{Timestamp, micro_second_per_second}

-- The sign of a quotient and of a remainder in C++.
abbrev minus : ℕ → ℤ
minus zero = pos 0
minus (suc n) = negsuc n

-- The seconds and the microseconds that are left, as `/` and `%` give them.
abbrev pub second : Timestamp → ℤ
second (pos n) = pos (n / micro_second_per_second)
second (negsuc n) = minus ((n + 1) / micro_second_per_second)

abbrev pub micro_second : Timestamp → ℤ
micro_second (pos n) = pos (n % micro_second_per_second)
micro_second (negsuc n) = minus ((n + 1) % micro_second_per_second)

-- `toString`: "%ld.%06ld" in a buffer of 31 characters.
unfoldable pub to_string : Timestamp → List ℕ
to_string t = take 30 (print_int (second t) ++ 46 ∷ print_padded 6 (micro_second t))

-- The fields of `struct tm` that are printed.
pub record Tm : Type 0 where
  pub tm_year : ℤ
  pub tm_mon : ℤ
  pub tm_mday : ℤ
  pub tm_hour : ℤ
  pub tm_min : ℤ
  pub tm_sec : ℤ

-- `toFormattedString`: "%4d%02d%02d %02d:%02d:%02d.%06d" in a buffer of 32 characters.
module _ (gmtime_r : ℤ → Tm) where
  unfoldable pub to_formatted_string : Timestamp → List ℕ
  to_formatted_string t =
      let tm = gmtime_r (second t) in
      take 31 (
        print_wide 4 (tm.tm_year +ℤ pos 1900)
        ++ print_padded 2 (tm.tm_mon +ℤ pos 1)
        ++ print_padded 2 tm.tm_mday
        ++ 32 ∷ print_padded 2 tm.tm_hour
        ++ 58 ∷ print_padded 2 tm.tm_min
        ++ 58 ∷ print_padded 2 tm.tm_sec
        ++ 46 ∷ print_padded 6 (micro_second t))

-- The characters before the first point, and those after it.
abbrev split : List ℕ → List ℕ × List ℕ
split [] = ([], [])
split (c ∷ cs) = let rest = split cs in if c == 46 then ([], cs) else (c ∷ rest.0, rest.1)

-- What a reader takes such a text for: seconds, a point, and six digits of microseconds.
abbrev pub from_string : List ℕ → Option ℕ
from_string text =
    let parts = split text in
    if length parts.1 == 6
    then some (read_from 0 parts.0 * micro_second_per_second + read_from 0 parts.1)
    else none
