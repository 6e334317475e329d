-- ===== src/Atomic.antt =====
-- base/Atomic.h: `AtomicInt32`, the counter of `Thread`. The value is the number of its 32 bits, so that
-- -1 is 2^32 - 1. Each builtin of the compiler is one step, which no other thread's step divides.
use mtnet.Prelude.{ℕ, ◌+◌, ◌-◌, ◌%◌, ◌^◌}
pub mod Sum
mod Tests

abbrev pub size : ℕ
size = 2 ^ 32

unfoldable pub init : ℕ
init = 0

unfoldable pub get : ℕ → ℕ
get value = value

-- What is returned, and the new value.
unfoldable pub get_and_add : (x value : ℕ) → ℕ × ℕ
get_and_add x value = (value, (value + x) % size)

unfoldable pub add_and_get : (x value : ℕ) → ℕ × ℕ
unfolding get_and_add
add_and_get x value = let r = get_and_add x value in ((r.0 + x) % size, r.1)

unfoldable pub add : (x value : ℕ) → ℕ
unfolding get_and_add
add x value = (get_and_add x value).1

unfoldable pub increment : ℕ → ℕ
unfolding get_and_add
increment value = (get_and_add 1 value).1

unfoldable pub decrement : ℕ → ℕ
unfolding get_and_add
decrement value = (get_and_add (size - 1) value).1

unfoldable pub get_and_set : (new_value value : ℕ) → ℕ × ℕ
get_and_set new_value value = (value, new_value)
