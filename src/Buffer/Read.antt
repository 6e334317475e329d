-- ===== src/Buffer/Read.antt =====
-- `retrieve`, `retrieveUntil`, `retrieveAll` and `retrieveAsString` of mtnet/Buffer.h.
use mtnet.Prelude.{
  ℕ, ◌+◌, ◌-◌, ◌≤◌, ◌≡◌, refl, ap, ◌∙◌, sym, List, [], take, drop, arith, ok, le→leb, drop-take,
  drop-drop,
}
use mtnet.Buffer.{
  Buffer, cheap_prepend, readable_bytes, retrieve, retrieve_until, retrieve_all, retrieve_as_string,
  add_size,
}
use mtnet.Buffer.Laws.{IsValid, contents, slice, read_at-slice, slice_empty}

slice-later : (v : List ℕ) (r w n : ℕ) → slice v (r + n) w ≡ drop n (slice v r w)
slice-later v r w n =
    let e : w - (r + n) ≡ w - r - n = omega arith in
    ap (λ k. take k (drop (r + n) v)) e
    ∙ ap (take (w - r - n)) (sym (drop-drop n r v))
    ∙ sym (drop-take n (w - r) (drop r v))

-- `retrieve` of at most the readable bytes succeeds, keeps the buffer valid and drops that many of
-- the oldest readable bytes.
pub retrieve_lem :
    (b : Buffer) (len : ℕ)
    → IsValid b
    → b.reader_index + len ≤ b.write_index
    → (c : Buffer) × (retrieve b len ≡ ok c) × IsValid c × (contents c ≡ drop len (contents b))
unfolding retrieve
retrieve_lem b len v h =
    let w : add_size b.reader_index len ≡ b.reader_index + len = omega arith in
    (
      record b { reader_index = b.reader_index + len },
      rw (le→leb len (readable_bytes b) (omega arith), w),
      omega arith,
      slice-later b.buffer b.reader_index b.write_index len,
    )

-- `retrieveUntil` an offset between `peek()` and `beginWrite()` drops the bytes before it.
pub retrieve_until_lem :
    (b : Buffer) (end : ℕ)
    → IsValid b
    → b.reader_index ≤ end
    → end ≤ b.write_index
    → (c : Buffer) × (retrieve_until b end ≡ ok c)
      × IsValid c
      × (contents c ≡ drop (end - b.reader_index) (contents b))
unfolding retrieve_until
retrieve_until_lem b end v h k =
    let (c, done, valid, rest) = retrieve_lem b (end - b.reader_index) v (omega arith) in
    (c, rw (le→leb b.reader_index end h, le→leb end b.write_index k) done, valid, rest)

-- On a valid buffer `retrieveAsString` returns all the readable bytes and leaves a valid buffer
-- with none, whose two indices stand at `kCheapPrepend`.
pub retrieve_as_string_lem :
    (b : Buffer)
    → IsValid b
    → (c : Buffer) × (retrieve_as_string b ≡ ok (contents b, c))
      × IsValid c
      × (contents c ≡ [])
      × (c.reader_index ≡ cheap_prepend)
      × (c.write_index ≡ cheap_prepend)
unfolding retrieve_as_string retrieve_all
retrieve_as_string_lem b v =
    let e : readable_bytes b ≡ b.write_index - b.reader_index = omega arith in
    (
      retrieve_all b,
      rw (e, read_at-slice b.buffer b.reader_index b.write_index v.ordered v.inside),
      omega arith,
      slice_empty b.buffer cheap_prepend,
      refl,
      refl,
    )
