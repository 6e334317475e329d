-- ===== src/Buffer/Shrink.antt =====
-- `shrink` of mtnet/Buffer.h replaces the vector and keeps the indices.
use mtnet.Prelude.{
  sym, ℕ, ◌+◌, ◌-◌, ◌≤◌, ◌<◌, ◌≡◌, ◌↔◌, ap, ◌∙◌, List, [], ◌++◌, length, take, drop, replicate,
  arith, ok, refl, le→ltb_false, length-replicate,
}
use mtnet.Buffer.{Buffer, max_size, cheap_prepend, readable_bytes, shrink, resize, add_size}
use mtnet.Buffer.Laws.{
  IsValid, contents, slice, read_at-slice, copy_to_lem, length-overwrite, slice-copy_self,
  length-contents,
}

resize-fresh : (n : ℕ) → n ≤ max_size → 0 < n → resize [] n ≡ ok (replicate n 0)
unfolding resize
resize-fresh n h k = rw (le→ltb_false max_size n h) (ground arith)

zeros : ℕ → List ℕ
zeros n = replicate n 0

-- `shrink` on a valid buffer to a size of at most `max_size()` succeeds and stores the readable
-- bytes from `kCheapPrepend` on. But the two indices stay where they were: the result is a valid
-- buffer exactly if the read index was at most `reserve` behind `kCheapPrepend`, and beyond that, and
-- only then, the write index points outside the vector.
pub shrink_lem :
    (b : Buffer) (reserve : ℕ)
    → IsValid b
    → cheap_prepend + (b.write_index - b.reader_index) + reserve ≤ max_size
    → (c : Buffer) × (shrink b reserve ≡ ok c)
      × (c.reader_index ≡ b.reader_index)
      × (c.write_index ≡ b.write_index)
      × (IsValid c ↔ (b.reader_index ≤ cheap_prepend + reserve))
      × ((length c.buffer < c.write_index) ↔ (cheap_prepend + reserve < b.reader_index))
      × (slice c.buffer cheap_prepend (cheap_prepend + (b.write_index - b.reader_index))
          ≡ contents b)
unfolding shrink zeros
shrink_lem b reserve v fits =
    let n = cheap_prepend + (b.write_index - b.reader_index) + reserve in
    let e : readable_bytes b ≡ b.write_index - b.reader_index = omega arith in
    let w : add_size (add_size cheap_prepend (b.write_index - b.reader_index)) reserve ≡ n =
      omega arith in
    let len : length (zeros n) ≡ n = length-replicate {A = ℕ} n 0 in
    let xs = contents b in
    let lxs : length xs ≡ b.write_index - b.reader_index = length-contents b v in
    let room : cheap_prepend + length xs ≤ length (zeros n) = omega arith in
    let v' = take cheap_prepend (zeros n) ++ (xs ++ drop (cheap_prepend + length xs) (zeros n)) in
    let len' : length v' ≡ n = length-overwrite (zeros n) cheap_prepend xs room ∙ len in
    (
      record b { buffer = v' },
      rw (
        e,
        w,
        resize-fresh n fits (omega arith),
        read_at-slice b.buffer b.reader_index b.write_index v.ordered v.inside,
        copy_to_lem (zeros n) cheap_prepend xs room,
      ),
      refl,
      refl,
      (λ c. omega (arith, c.inside, len'), λ h. omega (arith, len')),
      (λ h. omega (arith, len'), λ h. omega (arith, len')),
      ap (λ k. slice v' cheap_prepend (cheap_prepend + k)) (sym lxs)
          ∙ slice-copy_self (zeros n) xs (drop (cheap_prepend + length xs) (zeros n)) cheap_prepend
              (omega arith),
    )
