-- ===== src/Sockets/ByteOrder.antt =====
-- The byte order of mtnet/SocketsOps.h: `htonl` and the like, by the bytes that a number has in memory.
use mathlib.Core.List.{reverse, reverse-cons, reverse-reverse}
use mtnet.Prelude.{
  ℕ, zero, suc, ◌+◌, ◌*◌, ◌/◌, ◌%◌, ◌≡◌, ◌<◌, refl, sym, ap, ap₂, subst, ◌∙◌, List, [], ◌∷◌, ◌++◌,
  arith, length,
}

-- The byte order of the host.
pub data Endian : Type 0 where
  little big : Endian

-- The `n` bytes of a number, the least significant one first, and the number that bytes stand for.
abbrev pub bytes_of : ℕ → ℕ → List ℕ
bytes_of zero x = []
bytes_of (suc n) x = (x % 256) ∷ bytes_of n (x / 256)

abbrev number_of : List ℕ → ℕ
number_of [] = 0
number_of (b ∷ bs) = b + 256 * number_of bs

-- The bytes in memory of an `n`-byte number, and back.
abbrev pub store : Endian → ℕ → ℕ → List ℕ
store little n x = bytes_of n x
store big n x = reverse (bytes_of n x)

abbrev load : Endian → List ℕ → ℕ
load little bs = number_of bs
load big bs = number_of (reverse bs)

-- In network byte order the most significant byte is first: `htobe64`, `htonl`, `htons` and back.
abbrev to_network : Endian → ℕ → ℕ → ℕ
to_network e n x = load e (store big n x)

abbrev to_host : Endian → ℕ → ℕ → ℕ
to_host e n x = load big (store e n x)

unfoldable pub host_to_network64 : Endian → ℕ → ℕ
host_to_network64 e x = to_network e 8 x

unfoldable pub host_to_network32 : Endian → ℕ → ℕ
host_to_network32 e x = to_network e 4 x

unfoldable pub host_to_network16 : Endian → ℕ → ℕ
host_to_network16 e x = to_network e 2 x

unfoldable pub network_to_host64 : Endian → ℕ → ℕ
network_to_host64 e x = to_host e 8 x

unfoldable pub network_to_host32 : Endian → ℕ → ℕ
network_to_host32 e x = to_host e 4 x

unfoldable pub network_to_host16 : Endian → ℕ → ℕ
network_to_host16 e x = to_host e 2 x

-- One more than the largest `n`-byte number.
abbrev pub range : ℕ → ℕ
range zero = 1
range (suc n) = 256 * range n

number_of-bytes_of : (n x : ℕ) → x < range n → number_of (bytes_of n x) ≡ x
number_of-bytes_of zero x h = omega arith
number_of-bytes_of (suc n) x h =
    let ih = number_of-bytes_of n (x / 256) (omega arith) in omega (arith, ih)

abbrev AllBytes : List ℕ → Type 0
AllBytes [] = Unit
AllBytes (b ∷ bs) = (b < 256) × AllBytes bs

bytes_of-AllBytes : (n x : ℕ) → AllBytes (bytes_of n x)
bytes_of-AllBytes zero x = tt
bytes_of-AllBytes (suc n) x = (omega arith, bytes_of-AllBytes n (x / 256))

length-bytes_of : (n x : ℕ) → length (bytes_of n x) ≡ n
length-bytes_of zero x = refl
length-bytes_of (suc n) x = ap suc (length-bytes_of n (x / 256))

bytes_of-number_of : (bs : List ℕ) → AllBytes bs → bytes_of (length bs) (number_of bs) ≡ bs
bytes_of-number_of [] h = refl
bytes_of-number_of (b ∷ bs) (small, rest) =
    let first : (b + 256 * number_of bs) % 256 ≡ b = omega arith in
    let later : (b + 256 * number_of bs) / 256 ≡ number_of bs = omega arith in
    ap₂ (◌∷◌) first (ap (bytes_of (length bs)) later ∙ bytes_of-number_of bs rest)

length-snoc : (xs : List ℕ) (b : ℕ) → length (xs ++ b ∷ []) ≡ suc (length xs)
length-snoc [] b = refl
length-snoc (x ∷ xs) b = ap suc (length-snoc xs b)

length-reverse : (xs : List ℕ) → length (reverse xs) ≡ length xs
length-reverse [] = refl
length-reverse (x ∷ xs) =
    ap length (reverse-cons x xs) ∙ length-snoc (reverse xs) x ∙ ap suc (length-reverse xs)

append-AllBytes : (xs : List ℕ) (b : ℕ) → AllBytes xs → b < 256 → AllBytes (xs ++ b ∷ [])
append-AllBytes [] b h small = (small, tt)
append-AllBytes (x ∷ xs) b (hx, hs) small = (hx, append-AllBytes xs b hs small)

reverse-AllBytes : (xs : List ℕ) → AllBytes xs → AllBytes (reverse xs)
reverse-AllBytes [] h = tt
reverse-AllBytes (x ∷ xs) (small, rest) =
    subst AllBytes (sym (reverse-cons x xs))
      (append-AllBytes (reverse xs) x (reverse-AllBytes xs rest) small)

number_of-range : (bs : List ℕ) → AllBytes bs → number_of bs < range (length bs)
number_of-range [] h = omega arith
number_of-range (b ∷ bs) (small, rest) = let ih = number_of-range bs rest in omega (arith, ih)

-- What is stored is loaded again, and the other way round.
module _ (n x : ℕ) (small : x < range n) where
  load-store : (e : Endian) → load e (store e n x) ≡ x
  load-store little = number_of-bytes_of n x small
  load-store big = ap number_of (reverse-reverse (bytes_of n x)) ∙ number_of-bytes_of n x small

store-load :
    (e : Endian) (n : ℕ) (bs : List ℕ) → AllBytes bs → length bs ≡ n → store e n (load e bs) ≡ bs
store-load little n bs h e = ap (λ m. bytes_of m (number_of bs)) (sym e) ∙ bytes_of-number_of bs h
store-load big n bs h e =
    let small = reverse-AllBytes bs h in
    let size : length (reverse bs) ≡ n = length-reverse bs ∙ e in
    ap reverse (
      ap (λ m. bytes_of m (number_of (reverse bs))) (sym size)
      ∙ bytes_of-number_of (reverse bs) small)
    ∙ reverse-reverse bs

store-AllBytes : (e : Endian) (n x : ℕ) → AllBytes (store e n x)
store-AllBytes little n x = bytes_of-AllBytes n x
store-AllBytes big n x = reverse-AllBytes (bytes_of n x) (bytes_of-AllBytes n x)

length-store : (e : Endian) (n x : ℕ) → length (store e n x) ≡ n
length-store little n x = length-bytes_of n x
length-store big n x = length-reverse (bytes_of n x) ∙ length-bytes_of n x

load-range : (e : Endian) (n : ℕ) (bs : List ℕ) → AllBytes bs → length bs ≡ n → load e bs < range n
load-range little n bs h size = subst (λ m. number_of bs < range m) size (number_of-range bs h)
load-range big n bs h size =
    subst (λ m. number_of (reverse bs) < range m) (length-reverse bs ∙ size)
      (number_of-range (reverse bs) (reverse-AllBytes bs h))

-- The three widths that mtnet/SocketsOps.h has functions for.
pub data Width : Type 0 where
  bits16 bits32 bits64 : Width

abbrev pub bytes : Width → ℕ
bytes bits16 = 2
bytes bits32 = 4
bytes bits64 = 8

abbrev pub host_to_network : Width → Endian → ℕ → ℕ
host_to_network bits16 = host_to_network16
host_to_network bits32 = host_to_network32
host_to_network bits64 = host_to_network64

abbrev pub network_to_host : Width → Endian → ℕ → ℕ
network_to_host bits16 = network_to_host16
network_to_host bits32 = network_to_host32
network_to_host bits64 = network_to_host64

host_to_network-bytes :
    (w : Width) (e : Endian) (x : ℕ) → host_to_network w e x ≡ to_network e (bytes w) x
unfolding host_to_network16 host_to_network32 host_to_network64
host_to_network-bytes bits16 e x = refl
host_to_network-bytes bits32 e x = refl
host_to_network-bytes bits64 e x = refl

network_to_host-bytes :
    (w : Width) (e : Endian) (x : ℕ) → network_to_host w e x ≡ to_host e (bytes w) x
unfolding network_to_host16 network_to_host32 network_to_host64
network_to_host-bytes bits16 e x = refl
network_to_host-bytes bits32 e x = refl
network_to_host-bytes bits64 e x = refl

-- On a host of either byte order and for each of the three widths: a number of that width that is
-- brought into network byte order is still a number of that width, its bytes in memory are those of
-- the number with the most significant one first, and it comes back as the number that it was; a
-- number that is brought from network byte order and back again is the same.
pub network_to_host-host_to_network :
    (w : Width) (e : Endian) (x : ℕ)
    → x < range (bytes w)
    → (host_to_network w e x < range (bytes w))
      × (store e (bytes w) (host_to_network w e x) ≡ store big (bytes w) x)
      × (network_to_host w e (host_to_network w e x) ≡ x)
      × (host_to_network w e (network_to_host w e x) ≡ x)
network_to_host-host_to_network w e x small =
    let n = bytes w in
    let bs = store big n x in
    let cs = store e n x in
    let there = host_to_network-bytes w e x in
    let stored =
      ap (store e n) there ∙ store-load e n bs (store-AllBytes big n x) (length-store big n x) in
    (
      subst (λ y. y < range n) (sym there)
          (load-range e n bs (store-AllBytes big n x) (length-store big n x)),
      stored,
      network_to_host-bytes w e (host_to_network w e x)
          ∙ ap (load big) stored
          ∙ load-store n x small big,
      host_to_network-bytes w e (network_to_host w e x)
          ∙ ap (λ y. load e (store big n y)) (network_to_host-bytes w e x)
          ∙ ap (load e) (store-load big n cs (store-AllBytes e n x) (length-store e n x))
          ∙ load-store n x small e,
    )
