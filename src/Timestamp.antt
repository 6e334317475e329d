-- ===== src/Timestamp.antt =====
-- base/Timestamp.h and base/Timestamp.cc: a time in microseconds since the epoch. `int64_t` is an
-- integer: a sum of the program that leaves its range is undefined in C++ and not modelled. A
-- `double` of seconds comes in as the number of microseconds that `addTime` casts it to.
pub mod Print
mod Tests
use mtnet.Prelude.{ℕ, ◌+◌, ◌*◌, Bool}
use mtnet.Prelude.Int.{ℤ, pos, negsuc, ◌+ℤ◌, ltb_ℤ, eqb_ℤ}

-- `microSecond_`.
abbrev pub Timestamp : Type 0
Timestamp = ℤ

abbrev pub micro_second_per_second : ℕ
micro_second_per_second = 1000 * 1000

-- `Timestamp()`, which `invalid()` returns too.
abbrev pub invalid : Timestamp
invalid = pos 0

-- `now()`, from the two fields that `gettimeofday` fills.
abbrev pub now : ℤ → ℕ → Timestamp
now tv_sec tv_usec = scale tv_sec +ℤ pos tv_usec
  where
    scale : ℤ → ℤ
    scale (pos n) = pos (n * micro_second_per_second)
    scale (negsuc n) = negsuc (n * micro_second_per_second + 999999)

abbrev pub vaild : Timestamp → Bool
vaild t = ltb_ℤ (pos 0) t

abbrev pub lt : Timestamp → Timestamp → Bool
lt lhs rhs = ltb_ℤ lhs rhs

abbrev pub gt : Timestamp → Timestamp → Bool
gt lhs rhs = ltb_ℤ rhs lhs

abbrev pub eq : Timestamp → Timestamp → Bool
eq lhs rhs = eqb_ℤ lhs rhs

unfoldable pub swap : Timestamp → Timestamp → Timestamp × Timestamp
swap t rhs = (rhs, t)

-- `addTime`; `diff` is `static_cast<int64_t>(seconds * kmicroSecondPerSecond)`.
abbrev pub add_time : Timestamp → ℤ → Timestamp
add_time time_stamp diff = time_stamp +ℤ diff
