-- ===== src/Atomic/Sum.antt =====
-- Any interleaving of additions to a counter of base/Atomic.h.
use mtnet.Prelude.{ℕ, ◌+◌, ◌-◌, ◌%◌, ◌≡◌, ◌<◌, refl, ap, ◌∙◌, List, [], ◌∷◌, arith}
use mtnet.Atomic.{size, get, get_and_add, add_and_get, add, increment, decrement}

-- One step of some thread.
pub data Op : Type 0 where
  adds : ℕ → Op
  increments decrements : Op

abbrev pub perform : Op → ℕ → ℕ
perform (adds x) = add x
perform increments = increment
perform decrements = decrement

abbrev pub perform_all : List Op → ℕ → ℕ
perform_all [] value = value
perform_all (op ∷ ops) value = perform_all ops (perform op value)

-- What a step adds, as a number of 32 bits.
abbrev pub amount : Op → ℕ
amount (adds x) = x
amount increments = 1
amount decrements = size - 1

abbrev pub total : List Op → ℕ
total [] = 0
total (op ∷ ops) = amount op + total ops

perform-amount : (op : Op) (value : ℕ) → perform op value ≡ (value + amount op) % size
unfolding add increment decrement get_and_add
perform-amount (adds x) value = refl
perform-amount increments value = refl
perform-amount decrements value = refl

-- Whatever the order in which the threads' steps come, the counter ends with the sum of them all, up to
-- the wrap-around.
pub perform_all-total :
    (ops : List Op) (value : ℕ) → value < size → perform_all ops value ≡ (value + total ops) % size
perform_all-total [] value small = omega arith
perform_all-total (op ∷ ops) value small =
    let first = perform-amount op value in
    let rest = perform_all-total ops ((value + amount op) % size) (omega arith) in
    ap (perform_all ops) first ∙ rest ∙ omega arith

-- What `addAndGet` returns is what it stores.
pub add_and_get-stored : (x value : ℕ) → (add_and_get x value).0 ≡ get ((add_and_get x value).1)
unfolding add_and_get get_and_add get
add_and_get-stored x value = refl
