-- ===== src/Buffer/Laws.antt =====
-- The invariant of a buffer, its readable bytes, and what the vector operations of Buffer.h do to
-- a part of a vector.
use mtnet.Prelude.{
  ℕ, ◌+◌, ◌-◌, ◌≤◌, ◌≡◌, ap, ap₂, ◌∙◌, List, [], ◌++◌, length, take, drop, arith, ok, le→leb,
  length-append, length-take, length-drop, take-append, drop-append, take_all, drop-take,
  append-nil,
}
use mtnet.Buffer.{Buffer, max_size, cheap_prepend, read_at, copy_to}

pub record IsValid (b : Buffer) : Type 0 where
  pub ordered : b.reader_index ≤ b.write_index
  pub inside : b.write_index ≤ length b.buffer
  pub front : cheap_prepend ≤ length b.buffer
  pub small : length b.buffer ≤ max_size

-- The bytes between two offsets.
abbrev pub slice : List ℕ → ℕ → ℕ → List ℕ
slice v r w = take (w - r) (drop r v)

-- The readable bytes, oldest first.
abbrev pub contents : Buffer → List ℕ
contents b = slice b.buffer b.reader_index b.write_index

pub length-slice : (v : List ℕ) (r w : ℕ) → r ≤ w → w ≤ length v → length (slice v r w) ≡ w - r
length-slice v r w h k = omega (arith, length-take (w - r) (drop r v), length-drop r v)

pub length-contents :
    (b : Buffer) → IsValid b → length (contents b) ≡ b.write_index - b.reader_index
length-contents b v = length-slice b.buffer b.reader_index b.write_index v.ordered v.inside

pub read_at-slice :
    (v : List ℕ) (r w : ℕ) → r ≤ w → w ≤ length v → read_at v r (w - r) ≡ ok (slice v r w)
unfolding read_at
read_at-slice v r w h k = rw (le→leb (r + (w - r)) (length v) (omega arith))

pub copy_to_lem :
    (v : List ℕ) (i : ℕ) (xs : List ℕ)
    → i + length xs ≤ length v
    → copy_to v i xs ≡ ok (take i v ++ (xs ++ drop (i + length xs) v))
unfolding copy_to
copy_to_lem v i xs h = rw (le→leb _ _ h)

-- `std::copy` does not change the length of the vector.
pub length-overwrite :
    (v : List ℕ) (i : ℕ) (xs : List ℕ)
    → i + length xs ≤ length v
    → length (take i v ++ (xs ++ drop (i + length xs) v)) ≡ length v
length-overwrite v i xs h = omega (
  arith,
  length-append (take i v) (xs ++ drop (i + length xs) v),
  length-append xs (drop (i + length xs) v),
  length-take i v,
  length-drop (i + length xs) v,
)

-- Bytes behind `w` do not matter to the slice up to `w`.
pub slice-append :
    (v ys : List ℕ) (r w : ℕ) → r ≤ w → w ≤ length v → slice (v ++ ys) r w ≡ slice v r w
slice-append v ys r w h k =
    rw
      (
        drop-append r v ys,
        take-append (w - r) (drop r v) (drop (r - length v) ys),
        let e : w - r - length (drop r v) ≡ 0 = omega (arith, length-drop r v) in e,
      )
      (append-nil _)

-- What replaces the bytes behind `w` follows what stood before `w`.
pub slice-replace :
    (v rest : List ℕ) (r w n : ℕ)
    → r ≤ w
    → w ≤ length v
    → slice (take w v ++ rest) r (w + n) ≡ slice v r w ++ take n rest
slice-replace v rest r w n h k =
    let short : length (take w v) ≡ w = omega (arith, length-take w v) in
    let front : length (take (w - r) (drop r v)) ≡ w - r = length-slice v r w h k in
    let gap : r - w ≡ 0 = omega arith in
    let left : w + n - r - (w - r) ≡ n = omega arith in
    rw (drop-append r (take w v) rest, short, gap, drop-take r w v)
      (take-append (w + n - r) (slice v r w) rest
        ∙ ap₂ ◌++◌ (take_all (w + n - r) (slice v r w) (omega arith))
            (ap (λ m. take m rest) (ap (λ m. w + n - r - m) front ∙ left)))

take-append_self : (xs ys : List ℕ) → take (length xs) (xs ++ ys) ≡ xs
take-append_self xs ys =
    let e : length xs - length xs ≡ 0 = omega arith in
    take-append (length xs) xs ys ∙ rw (e, take_all (length xs) xs (omega arith)) (append-nil xs)

-- Bytes copied to `w` follow the slice that ends there.
pub slice-copy :
    (v xs rest : List ℕ) (r w : ℕ)
    → r ≤ w
    → w ≤ length v
    → slice (take w v ++ (xs ++ rest)) r (w + length xs) ≡ slice v r w ++ xs
slice-copy v xs rest r w h k =
    slice-replace v (xs ++ rest) r w (length xs) h k
    ∙ ap (◌++◌ (slice v r w)) (take-append_self xs rest)

pub slice_empty : (v : List ℕ) (i : ℕ) → slice v i i ≡ []
slice_empty v i = let e : i - i ≡ 0 = omega arith in ap (λ n. take n (drop i v)) e

-- Bytes copied to `i` are the slice that begins there.
pub slice-copy_self :
    (v xs rest : List ℕ) (i : ℕ)
    → i ≤ length v
    → slice (take i v ++ (xs ++ rest)) i (i + length xs) ≡ xs
slice-copy_self v xs rest i h =
    slice-copy v xs rest i i (omega arith) h ∙ ap (λ ys. ys ++ xs) (slice_empty v i)

-- Bytes copied in front of a slice come before it.
pub slice-copy_front :
    (v xs : List ℕ) (i w : ℕ)
    → i + length xs ≤ w
    → w ≤ length v
    → slice (take i v ++ (xs ++ drop (i + length xs) v)) i w ≡ xs ++ slice v (i + length xs) w
slice-copy_front v xs i w h k =
    let rest = drop (i + length xs) v in
    let e : w ≡ i + (w - i) = omega arith in
    let e' : w - i - length xs ≡ w - (i + length xs) = omega arith in
    ap (slice (take i v ++ (xs ++ rest)) i) e
    ∙ slice-replace v (xs ++ rest) i i (w - i) (omega arith) (omega arith)
    ∙ ap (λ ys. ys ++ take (w - i) (xs ++ rest)) (slice_empty v i)
    ∙ take-append (w - i) xs rest
    ∙ ap₂ ◌++◌ (take_all (w - i) xs (omega arith)) (ap (λ n. take n rest) e')
