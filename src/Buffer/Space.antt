-- ===== src/Buffer/Space.antt =====
-- `makeSpace` and `ensureWritableBytes` of mtnet/Buffer.h: room is made, and no byte is lost.
use mtnet.Prelude.{
  ℕ, ◌+◌, ◌-◌, ◌≤◌, ◌<◌, ◌≡◌, refl, List, ◌++◌, length, take, drop, replicate, arith, ok, ltb,
  le→leb, le→ltb_false, lt→ltb, ltb→lt, ltb_false→le, Bool-cases, inl, inr, length-append,
  length-replicate,
}
use mtnet.Buffer.{
  Buffer, max_size, cheap_prepend, resize, readable_bytes, writeable_bytes, compact, make_space,
  ensure_writable_bytes, add_size,
}
use mtnet.Buffer.Laws.{
  IsValid, contents, length-contents, read_at-slice, copy_to_lem, length-overwrite, slice-append,
  slice-copy_self,
}

-- The same readable bytes, with room for `len` more behind them.
pub record Spaced (b : Buffer) (len : ℕ) (c : Buffer) : Type 0 where
  pub valid : IsValid c
  pub same : contents c ≡ contents b
  pub room : c.write_index + len ≤ length c.buffer

abbrev compacted : Buffer → Buffer
compacted b = record {
  buffer =
      take cheap_prepend b.buffer
      ++ (contents b ++ drop (cheap_prepend + length (contents b)) b.buffer);
  reader_index = cheap_prepend;
  write_index = cheap_prepend + length (contents b);
}

-- Moving the readable bytes to the front, wherever they begin behind the prependable area.
pub compact_lem :
    (b : Buffer) (len : ℕ)
    → IsValid b
    → cheap_prepend < b.reader_index
    → cheap_prepend + len + (b.write_index - b.reader_index) ≤ length b.buffer
    → (c : Buffer) × (compact b ≡ ok c) × Spaced b len c
unfolding compact
compact_lem b len v h room =
    let n : length (contents b) ≡ b.write_index - b.reader_index = length-contents b v in
    let e : readable_bytes b ≡ b.write_index - b.reader_index = omega arith in
    let w : add_size cheap_prepend (b.write_index - b.reader_index)
        ≡ cheap_prepend + length (contents b) =
      omega arith in
    let fits : cheap_prepend + length (contents b) ≤ length b.buffer = omega arith in
    (
      compacted b,
      rw (
        lt→ltb cheap_prepend b.reader_index h,
        e,
        read_at-slice b.buffer b.reader_index b.write_index v.ordered v.inside,
        copy_to_lem b.buffer cheap_prepend (contents b) fits,
        w,
      ),
      record {
        valid = omega (arith, length-overwrite b.buffer cheap_prepend (contents b) fits);
        same = slice-copy_self b.buffer (contents b) _ cheap_prepend (omega arith);
        room = omega (arith, length-overwrite b.buffer cheap_prepend (contents b) fits);
      },
    )

-- Growing the vector with zeros.
grown : Buffer → ℕ → Buffer
grown b len = record b { buffer = b.buffer ++ replicate (b.write_index + len - length b.buffer) 0 }

grown-Spaced :
    (b : Buffer) (len : ℕ)
    → IsValid b
    → length b.buffer ≤ b.write_index + len
    → b.write_index + len ≤ max_size
    → Spaced b len (grown b len)
unfolding grown
grown-Spaced b len v more fits =
    let zeros = replicate {A = ℕ} (b.write_index + len - length b.buffer) 0 in
    let n : length (b.buffer ++ zeros) ≡ b.write_index + len = omega (
      arith,
      length-append b.buffer zeros,
      length-replicate {A = ℕ} (b.write_index + len - length b.buffer) 0,
    ) in
    record {
      valid = omega (arith, n);
      same = slice-append b.buffer zeros b.reader_index b.write_index v.ordered v.inside;
      room = omega (arith, n);
    }

resize_lem :
    (v : List ℕ) (n : ℕ)
    → length v < n
    → n ≤ max_size
    → resize v n ≡ ok (v ++ replicate (n - length v) 0)
unfolding resize
resize_lem v n h k = rw (le→ltb_false max_size n k) (ground arith)

-- `makeSpace`, called as `ensureWritableBytes` calls it: its assertion never fails.
make_space_lem :
    (b : Buffer) (len : ℕ)
    → IsValid b
    → length b.buffer < b.write_index + len
    → b.write_index + len ≤ max_size
    → (c : Buffer) × (make_space b len ≡ ok c) × Spaced b len c
unfolding make_space
make_space_lem b len v more fits =
    let e : writeable_bytes b ≡ length b.buffer - b.write_index = omega arith in
    elim (Bool-cases
      (ltb (add_size (writeable_bytes b) b.reader_index) (add_size len cheap_prepend))) [
        | inl short ↦
            let w : add_size b.write_index len ≡ b.write_index + len = omega arith in
            (
              grown b len,
              rw (short, w, resize_lem b.buffer (b.write_index + len) more fits)
                  (unfold grown in refl),
              grown-Spaced b len v (omega arith) fits,
            )
        | inr enough ↦
            let p = ltb_false→le _ _ enough in
            let (c, made, spaced) = compact_lem b len v (omega (arith, p)) (omega (arith, p)) in
            (c, rw enough made, spaced)
      ]

-- `ensureWritableBytes`.
pub ensure_writable_bytes_lem :
    (b : Buffer) (len : ℕ)
    → IsValid b
    → b.write_index + len ≤ max_size
    → (c : Buffer) × (ensure_writable_bytes b len ≡ ok c) × Spaced b len c
unfolding ensure_writable_bytes
ensure_writable_bytes_lem b len v fits = elim (Bool-cases (ltb (writeable_bytes b) len)) [
  | inl short ↦
      let p = ltb→lt _ _ short in
      let (c, made, s) = make_space_lem b len v (omega (arith, p)) fits in
      (c, rw (short, made, le→leb len (writeable_bytes c) (omega (arith, s.valid, s.room))), s)
  | inr enough ↦
      let p = ltb_false→le _ _ enough in
      (
        b,
        rw (enough, le→leb len (writeable_bytes b) p),
        record { valid = v; same = refl; room = omega (arith, p) },
      )
]
