-- ===== src/Buffer/Tests.antt =====
-- Runs of the buffer's operations, and the theorems about them at concrete buffers.
use mtnet.Prelude.{length, ◌<◌, ◌+◌, ◌≤◌, ◌≡◌, ◌↔◌, refl, [], ◌∷◌, ok, err, assertion, arith}
use mtnet.Buffer.{Buffer, cheap_prepend, append, retrieve, shrink, read_fd, stored, received, init}
use mtnet.Buffer.Laws.{IsValid, contents, slice}
use mtnet.Buffer.Append.{append_lem, read_fd_lem}
use mtnet.Buffer.Shrink.{shrink_lem}

-- Three readable bytes, and one free byte behind them.
abbrev three : Buffer
three = record {
  buffer = 0 ∷ 0 ∷ 0 ∷ 0 ∷ 0 ∷ 0 ∷ 0 ∷ 0 ∷ 1 ∷ 2 ∷ 3 ∷ 0 ∷ [];
  reader_index = 8;
  write_index = 11;
}

-- The same after two bytes are retrieved.
abbrev one_left : Buffer
one_left = record three { reader_index = 10 }

three-IsValid : IsValid three
three-IsValid = omega arith

one_left-IsValid : IsValid one_left
one_left-IsValid = omega arith

init-IsValid : IsValid init
unfolding init
init-IsValid = omega arith

append_grows :
    append three (4 ∷ 5 ∷ [])
    ≡ ok (record {
      buffer = 0 ∷ 0 ∷ 0 ∷ 0 ∷ 0 ∷ 0 ∷ 0 ∷ 0 ∷ 1 ∷ 2 ∷ 3 ∷ 4 ∷ 5 ∷ [];
      reader_index = 8;
      write_index = 13;
    })
unfolding append
append_grows = refl

append_moves :
    append one_left (4 ∷ 5 ∷ [])
    ≡ ok (record {
      buffer = 0 ∷ 0 ∷ 0 ∷ 0 ∷ 0 ∷ 0 ∷ 0 ∷ 0 ∷ 3 ∷ 4 ∷ 5 ∷ 0 ∷ [];
      reader_index = 8;
      write_index = 11;
    })
unfolding append
append_moves = refl

retrieve_too_many : retrieve three 4 ≡ err assertion
unfolding retrieve
retrieve_too_many = refl

-- After `shrink(0)` the write index, 11, points outside the vector of 9 bytes.
shrink_stale :
    shrink one_left 0 ≡ ok (record one_left { buffer = 0 ∷ 0 ∷ 0 ∷ 0 ∷ 0 ∷ 0 ∷ 0 ∷ 0 ∷ 3 ∷ [] })
unfolding shrink
shrink_stale = refl

append_lem_example :
    (c : Buffer) × (append one_left (4 ∷ 5 ∷ []) ≡ ok c) × IsValid c × (contents c ≡ 3 ∷ 4 ∷ 5 ∷ [])
append_lem_example = append_lem one_left (4 ∷ 5 ∷ []) one_left-IsValid (omega arith)

read_fd_lem_example :
    (c : Buffer) × (read_fd (stored (4 ∷ 5 ∷ 6 ∷ [])) three ≡ ok (received 3, c))
    × IsValid c
    × (contents c ≡ 1 ∷ 2 ∷ 3 ∷ 4 ∷ 5 ∷ 6 ∷ [])
read_fd_lem_example = read_fd_lem three (4 ∷ 5 ∷ 6 ∷ []) three-IsValid (omega arith)

shrink_lem_example :
    (c : Buffer) × (shrink one_left 0 ≡ ok c)
    × (c.reader_index ≡ 10)
    × (c.write_index ≡ 11)
    × (IsValid c ↔ (10 ≤ cheap_prepend + 0))
    × ((length c.buffer < c.write_index) ↔ (cheap_prepend + 0 < 10))
    × (slice c.buffer cheap_prepend (cheap_prepend + 1) ≡ 3 ∷ [])
shrink_lem_example = shrink_lem one_left 0 one_left-IsValid (omega arith)
