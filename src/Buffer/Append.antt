-- ===== src/Buffer/Append.antt =====
-- `append`, `prepend` and `readFd` of mtnet/Buffer.h and mtnet/Buffer.cc against the readable bytes.
use mtnet.Prelude.{
  ℕ, ◌+◌, ◌-◌, ◌≤◌, ◌<◌, ◌≡◌, ap, ◌∙◌, List, ◌++◌, length, take, drop, arith, ok, leb, le→leb,
  Bool-cases, inl, inr, length-take, length-drop, take_all, append_assoc, take-append-drop, leb→le,
  false,
}
use mtnet.Buffer.{
  Buffer, max_size, writeable_bytes, sub_size, append, prepend, read_fd, stored, received, add_size,
}
use mtnet.Buffer.Laws.{
  IsValid, contents, slice, copy_to_lem, length-overwrite, slice-copy, slice-copy_front,
}
use mtnet.Buffer.Space.{ensure_writable_bytes_lem}

-- What is stored behind the readable bytes, where there is room for it.
stored_behind : Buffer → List ℕ → Buffer
stored_behind c xs = record c {
  buffer = take c.write_index c.buffer ++ (xs ++ drop (c.write_index + length xs) c.buffer);
  write_index = c.write_index + length xs;
}

stored_behind_lem :
    (c : Buffer) (xs : List ℕ)
    → IsValid c
    → c.write_index + length xs ≤ length c.buffer
    → IsValid (stored_behind c xs) × (contents (stored_behind c xs) ≡ contents c ++ xs)
unfolding stored_behind
stored_behind_lem c xs v fits =
    let rest = drop (c.write_index + length xs) c.buffer in
    (
      omega (arith, length-overwrite c.buffer c.write_index xs fits),
      slice-copy c.buffer xs rest c.reader_index c.write_index v.ordered v.inside,
    )

-- On a valid buffer whose write index leaves room below `max_size()`, `append` succeeds: no
-- assertion fails and no byte is written outside the vector. The buffer stays valid, and its
-- readable bytes are the old ones followed by all of `data`.
pub append_lem :
    (b : Buffer) (data_bytes : List ℕ)
    → IsValid b
    → b.write_index + length data_bytes ≤ max_size
    → (c : Buffer) × (append b data_bytes ≡ ok c)
      × IsValid c
      × (contents c ≡ contents b ++ data_bytes)
unfolding append stored_behind
append_lem b xs v fits =
    let (c, made, s) = ensure_writable_bytes_lem b (length xs) v fits in
    let (valid, bytes) = stored_behind_lem c xs s.valid s.room in
    let w : add_size c.write_index (length xs) ≡ c.write_index + length xs =
      omega (arith, s.valid, s.room) in
    (
      stored_behind c xs,
      rw (made, copy_to_lem c.buffer c.write_index xs s.room, w),
      valid,
      bytes ∙ ap (λ ys. ys ++ xs) s.same,
    )

-- `prepend` of bytes that fit in front succeeds, keeps the buffer valid, and puts those bytes
-- before the readable ones.
pub prepend_lem :
    (b : Buffer) (data_bytes : List ℕ)
    → IsValid b
    → length data_bytes ≤ b.reader_index
    → (c : Buffer) × (prepend b data_bytes ≡ ok c)
      × IsValid c
      × (contents c ≡ data_bytes ++ contents b)
unfolding prepend
prepend_lem b xs v h =
    let i = b.reader_index - length xs in
    let e : sub_size b.reader_index (length xs) ≡ i = omega arith in
    let fits : i + length xs ≤ length b.buffer = omega arith in
    let back : i + length xs ≡ b.reader_index = omega arith in
    (
      record b {
        buffer = take i b.buffer ++ (xs ++ drop (i + length xs) b.buffer);
        reader_index = i;
      },
      rw (le→leb (length xs) b.reader_index h, e, copy_to_lem b.buffer i xs fits),
      omega (arith, length-overwrite b.buffer i xs fits),
      slice-copy_front b.buffer xs i b.write_index (omega arith) v.inside
          ∙ ap (λ r. xs ++ slice b.buffer r b.write_index) back,
    )

first_part-full :
    (b : Buffer) (bytes : List ℕ)
    → IsValid b
    → length b.buffer - b.write_index < length bytes
    → length (take (length b.buffer - b.write_index) bytes) ≡ length b.buffer - b.write_index
first_part-full b bytes v h = omega (arith, length-take (length b.buffer - b.write_index) bytes)

module _ (b : Buffer) (bytes : List ℕ) (v : IsValid b)
    (more : length b.buffer - b.write_index < length bytes)
    (fits : b.write_index + length bytes ≤ max_size) where
  abbrev free : ℕ
  free = length b.buffer - b.write_index

  first_part-fits : b.write_index + length (take free bytes) ≤ length b.buffer
  first_part-fits = omega (arith, first_part-full b bytes v more)

  -- The vector is full once the first part is stored.
  vector-full :
      length (stored_behind b (take free bytes)).buffer
      ≡ (stored_behind b (take free bytes)).write_index
  unfolding stored_behind
  vector-full = omega (
    arith,
    length-overwrite b.buffer b.write_index (take free bytes) first_part-fits,
    first_part-full b bytes v more,
  )

  -- The second part goes by way of `extrabuf`.
  read_fd-append :
      (c : Buffer)
      → append (stored_behind b (take free bytes)) (drop free bytes) ≡ ok c
      → read_fd (stored bytes) b ≡ ok (received (length bytes), c)
  unfolding read_fd stored_behind
  read_fd-append c done =
      let e : writeable_bytes b ≡ free = omega arith in
      let e' : sub_size (length bytes) free ≡ length bytes - free = omega arith in
      let over : leb (length bytes) free ≡ false = ground arith in
      rw (
        e,
        copy_to_lem b.buffer b.write_index (take free bytes) first_part-fits,
        over,
        vector-full,
        e',
        take_all (length bytes - free) (drop free bytes) (omega (arith, length-drop free bytes)),
        done,
      )

  read_fd-spill :
      (c : Buffer) × (read_fd (stored bytes) b ≡ ok (received (length bytes), c))
      × IsValid c
      × (contents c ≡ contents b ++ bytes)
  read_fd-spill =
      let (valid, part) = stored_behind_lem b (take free bytes) v first_part-fits in
      let room : (stored_behind b (take free bytes)).write_index + length (drop free bytes)
          ≤ max_size =
        unfold stored_behind in
        omega (arith, first_part-full b bytes v more, length-drop free bytes) in
      let (c, done, valid', all) =
        append_lem (stored_behind b (take free bytes)) (drop free bytes) valid room in
      (
        c,
        read_fd-append c done,
        valid',
        all
            ∙ ap (λ ys. ys ++ drop free bytes) part
            ∙ append_assoc (contents b) (take free bytes) (drop free bytes)
            ∙ ap (◌++◌ (contents b)) (take-append-drop free bytes),
      )

-- `readFd` on a valid buffer. Whatever bytes `readv` stored, in the vector or beyond it in
-- `extrabuf`, if the vector can hold them all below `max_size()`, `readFd` succeeds, returns their
-- number, keeps the buffer valid and leaves exactly these bytes, in order, behind the readable
-- ones.
pub read_fd_lem :
    (b : Buffer) (bytes : List ℕ)
    → IsValid b
    → b.write_index + length bytes ≤ max_size
    → (c : Buffer) × (read_fd (stored bytes) b ≡ ok (received (length bytes), c))
      × IsValid c
      × (contents c ≡ contents b ++ bytes)
unfolding read_fd stored_behind
read_fd_lem b bytes v fits =
    elim (Bool-cases (leb (length bytes) (length b.buffer - b.write_index))) [
      | inl short ↦
          let p : length bytes ≤ length b.buffer - b.write_index = leb→le _ _ short in
          let fit : b.write_index + length bytes ≤ length b.buffer = omega (arith, p) in
          let e' : writeable_bytes b ≡ length b.buffer - b.write_index = omega arith in
          let w : add_size b.write_index (length bytes) ≡ b.write_index + length bytes =
            omega (arith, p) in
          let (valid, all) = stored_behind_lem b bytes v fit in
          (
            stored_behind b bytes,
            rw (
              e',
              take_all (length b.buffer - b.write_index) bytes p,
              copy_to_lem b.buffer b.write_index bytes fit,
              short,
              w,
            ),
            valid,
            all,
          )
      | inr more ↦ read_fd-spill b bytes v (ground arith) fits
    ]
