-- ===== src/Buffer.antt =====
-- mtnet/Buffer.h and mtnet/Buffer.cc: the byte buffer of a connection, a vector with a read index
-- and a write index. `size_t` arithmetic wraps; pointers into the vector are offsets from `begin()`.
-- An access outside the vector is `out_of_bounds`, a failed `assert` is `assertion`, and a `resize`
-- beyond `max_size()` throws `length_error`.
pub mod Laws
pub mod Append
pub mod Read
pub mod Shrink
mod Tests
mod Space
use mtnet.Prelude.{
  ℕ, ◌+◌, ◌-◌, ◌%◌, ◌^◌, List, [], ◌++◌, Bool, ltb, leb, if◌then◌else◌, length, take, drop,
  replicate, Result, ok, err, guard, ◌>>=◌, ◌>>◌, assertion, length_error, out_of_bounds,
}

-- `size_t` sums and differences.
abbrev pub add_size : ℕ → ℕ → ℕ
add_size a b = (a + b) % 2 ^ 64

abbrev pub sub_size : ℕ → ℕ → ℕ
sub_size a b = (a + 2 ^ 64 - b) % 2 ^ 64

-- `std::vector<char>::max_size()`, which is PTRDIFF_MAX.
abbrev pub max_size : ℕ
max_size = 2 ^ 63 - 1

abbrev pub cheap_prepend : ℕ
cheap_prepend = 8

abbrev pub initial_size : ℕ
initial_size = 1024

-- `sizeof(extrabuf)` in `readFd`.
abbrev pub extrabuf_size : ℕ
extrabuf_size = 65536

pub record Buffer : Type 0 where
  pub buffer : List ℕ
  pub reader_index : ℕ
  pub write_index : ℕ

abbrev pub size : Buffer → ℕ
size b = length b.buffer

abbrev pub readable_bytes : Buffer → ℕ
readable_bytes b = sub_size b.write_index b.reader_index

abbrev pub writeable_bytes : Buffer → ℕ
writeable_bytes b = sub_size (size b) b.write_index

abbrev pub prependable_bytes : Buffer → ℕ
prependable_bytes b = b.reader_index

-- The offset of `peek()` and of `beginWrite()` from `begin()`.
abbrev pub peek : Buffer → ℕ
peek b = b.reader_index

abbrev pub begin_write : Buffer → ℕ
begin_write b = b.write_index

-- `Buffer()`.
unfoldable pub init : Buffer
init = record {
  buffer = replicate (cheap_prepend + initial_size) 0;
  reader_index = cheap_prepend;
  write_index = cheap_prepend;
}

-- Reading `n` bytes from offset `i` of a vector.
unfoldable pub read_at : List ℕ → ℕ → ℕ → Result (List ℕ)
read_at v i n = if leb (i + n) (length v) then ok (take n (drop i v)) else err out_of_bounds

-- `std::copy` of `xs` to offset `i` of a vector.
unfoldable pub copy_to : List ℕ → ℕ → List ℕ → Result (List ℕ)
copy_to v i xs =
    if leb (i + length xs) (length v)
    then ok (take i v ++ (xs ++ drop (i + length xs) v))
    else err out_of_bounds

-- `std::vector<char>::resize`: new bytes are zero.
unfoldable pub resize : List ℕ → ℕ → Result (List ℕ)
resize v n =
    if ltb max_size n
    then err length_error
    else if leb n (length v)
    then ok (take n v)
    else ok (v ++ replicate (n - length v) 0)

unfoldable pub swap : Buffer → Buffer → Buffer × Buffer
swap b rhs = (rhs, b)

unfoldable pub retrieve : Buffer → ℕ → Result Buffer
retrieve b len = do
  guard (leb len (readable_bytes b)) assertion
  ok (record b { reader_index = add_size b.reader_index len })

-- `end` is an offset.
unfoldable pub retrieve_until : Buffer → ℕ → Result Buffer
unfolding retrieve
retrieve_until b end = do
  guard (leb (peek b) end) assertion
  guard (leb end (begin_write b)) assertion
  retrieve b (end - peek b)

unfoldable pub retrieve_all : Buffer → Buffer
retrieve_all b = record b { reader_index = cheap_prepend; write_index = cheap_prepend }

unfoldable pub retrieve_as_string : Buffer → Result (List ℕ × Buffer)
unfolding read_at retrieve_all
retrieve_as_string b = do
  str ← read_at b.buffer (peek b) (readable_bytes b)
  ok (str, retrieve_all b)

-- The readable bytes move to the front. The target stands before the source, so that `std::copy`,
-- which goes forward, reads each byte before it is overwritten.
unfoldable pub compact : Buffer → Result Buffer
unfolding read_at copy_to
compact b = do
  guard (ltb cheap_prepend b.reader_index) assertion
  bytes ← read_at b.buffer b.reader_index (readable_bytes b)
  v ← copy_to b.buffer cheap_prepend bytes
  ok (record {
    buffer = v;
    reader_index = cheap_prepend;
    write_index = add_size cheap_prepend (readable_bytes b);
  })

unfoldable pub make_space : Buffer → ℕ → Result Buffer
unfolding resize compact
make_space b len =
    if ltb (add_size (writeable_bytes b) (prependable_bytes b)) (add_size len cheap_prepend)
    then resize b.buffer (add_size b.write_index len) >>= (λ v. ok (record b { buffer = v }))
    else compact b

unfoldable pub ensure_writable_bytes : Buffer → ℕ → Result Buffer
unfolding make_space
ensure_writable_bytes b len = do
  c ← if ltb (writeable_bytes b) len then make_space b len else ok b
  guard (leb len (writeable_bytes c)) assertion
  ok c

unfoldable pub has_writeten : Buffer → ℕ → Buffer
has_writeten b len = record b { write_index = add_size b.write_index len }

-- `append(data, len)`; the two other overloads call it.
unfoldable pub append : Buffer → List ℕ → Result Buffer
unfolding ensure_writable_bytes copy_to has_writeten
append b str = do
  c ← ensure_writable_bytes b (length str)
  v ← copy_to c.buffer (begin_write c) str
  ok (has_writeten (record c { buffer = v }) (length str))

unfoldable pub prepend : Buffer → List ℕ → Result Buffer
unfolding copy_to
prepend b str = do
  guard (leb (length str) (prependable_bytes b)) assertion
  let start = sub_size b.reader_index (length str)
  v ← copy_to b.buffer start str
  ok (record b { buffer = v; reader_index = start })

-- `shrink` as it is written: the new vector holds the readable bytes from `kCheapPrepend` on, and
-- the two indices stay as they were.
unfoldable pub shrink : Buffer → ℕ → Result Buffer
unfolding read_at copy_to resize
shrink b reserve = do
  fresh ← resize [] (add_size (add_size cheap_prepend (readable_bytes b)) reserve)
  bytes ← read_at b.buffer (peek b) (readable_bytes b)
  v ← copy_to fresh cheap_prepend bytes
  ok (record b { buffer = v })

-- What `readv` does: it fails with an errno, or stores bytes, first into `vec[0]` and then, once
-- that is full, into `vec[1]`.
pub data Readv : Type 0 where
  failed : ℕ → Readv
  stored : List ℕ → Readv

-- The return value of `readFd`: -1, with what it stored in `*savedErrno`, or the bytes received.
pub data ReadCount : Type 0 where
  error : ℕ → ReadCount
  received : ℕ → ReadCount

unfoldable pub read_fd : Readv → Buffer → Result (ReadCount × Buffer)
read_fd (failed errno) b = ok (error errno, b)
read_fd (stored bytes) b = do
  let writable = writeable_bytes b
  let n = length bytes
  v ← copy_to b.buffer b.write_index (take writable bytes)
  let extrabuf = drop writable bytes
  if leb n writable
      then ok (received n, record b { buffer = v; write_index = add_size b.write_index n })
      else append (record b { buffer = v; write_index = length v })
          (take (sub_size n writable) extrabuf)
        >>= (λ c. ok (received n, c))
