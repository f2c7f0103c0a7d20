-- ===== src/Wire.antt =====
-- What the codecs use of encoding/binary, bytes and io: little-endian integers, and readers over
-- the bytes that are left. `none` stands for an error, whichever message it carries.
use mathlib.Core.List.{append-nil, append_assoc}
use native.Mathlib.Nat.{pow-suc}
use peerdns.Prelude.{
  ℕ, zero, suc, ◌+◌, ◌-◌, ◌*◌, ◌/◌, ◌%◌, ◌^◌, ◌<◌, ◌≡◌, refl, ap, Option, none, some, [], ◌∷◌, ◌++◌,
  arith, leb, if◌then◌else◌, Bytes, length, take, drop, take-append, drop-append, length-append,
}

-- The low `w` bytes of `n`, least significant first.
unfoldable pub le_bytes : ℕ → ℕ → Bytes
le_bytes zero n = []
le_bytes (suc w) n = (n % 256) ∷ le_bytes w (n / 256)

unfoldable pub from_le : Bytes → ℕ
from_le [] = 0
from_le (b ∷ bs) = b + 256 * from_le bs

pub length-le_bytes : (w n : ℕ) → length (le_bytes w n) ≡ w
unfolding le_bytes
length-le_bytes zero n = refl
length-le_bytes (suc w) n = omega (arith, length-le_bytes w (n / 256))

pub from_le-le_bytes : (w n : ℕ) → n < 256 ^ w → from_le (le_bytes w n) ≡ n
unfolding le_bytes from_le
from_le-le_bytes zero n h = omega arith
from_le-le_bytes (suc w) n h =
    omega (arith, from_le-le_bytes w (n / 256) (omega (arith, pow-suc 256 w)))

-- A parser takes bytes from the front.
abbrev pub Parser {ℓ} : Type ℓ → Type ℓ
Parser A = Bytes → Option (A × Bytes)

infixl 5 ◌>>=◌
abbrev pub ◌>>=◌ {ℓ κ} : {A : Type ℓ} {B : Type κ} → Parser A → (A → Parser B) → Parser B
◌>>=◌ m f s = elim (m s) [ none ↦ none | some (a, rest) ↦ f a rest ]

abbrev pub pure {ℓ} : {A : Type ℓ} → A → Parser A
pure a s = some (a, s)

-- `io.ReadFull` into `n` bytes; `binary.Read` of a fixed-size value reads so.
unfoldable pub read_full : ℕ → Parser Bytes
read_full n s = if leb n (length s) then some (take n s, drop n s) else none

unfoldable pub replicate_zero : ℕ → Bytes
replicate_zero zero = []
replicate_zero (suc n) = 0 ∷ replicate_zero n

-- A new slice of `n` bytes with what there is of `s` copied into it.
unfoldable pub padded : ℕ → Bytes → Bytes
padded n s = take n s ++ replicate_zero (n - length s)

-- `buffer.Read` into a new slice of `n` bytes, its count ignored: a short read is no error, and the
-- end of the slice stays zero.
unfoldable pub buffer_read : ℕ → Parser Bytes
buffer_read zero [] = some ([], [])
buffer_read (suc n) [] = none
buffer_read n (b ∷ s) = some (padded n (b ∷ s), drop n (b ∷ s))

-- `reader.Read` of a bytes.Reader fails at the end of the data for an empty slice too.
unfoldable pub reader_read : ℕ → Parser Bytes
reader_read n [] = none
reader_read n (b ∷ s) = some (padded n (b ∷ s), drop n (b ∷ s))

-- The same with the count of the bytes that were read.
unfoldable pub reader_read_count : ℕ → Parser (Bytes × ℕ)
reader_read_count n [] = none
reader_read_count n (b ∷ s) = some ((padded n (b ∷ s), length (take n (b ∷ s))), drop n (b ∷ s))

unfoldable pub read_uint : ℕ → Parser ℕ
read_uint w = do b ← read_full w; pure (from_le b)

pub read_full-append : (n : ℕ) (xs s : Bytes) → length xs ≡ n → read_full n (xs ++ s) ≡ some (xs, s)
unfolding read_full
read_full-append n xs s h =
    rw (← h) (ground (arith, take-append xs s, drop-append xs s, length-append xs s))

-- `read_full` fails exactly where too few bytes are left.
pub read_full_short : (n : ℕ) (s : Bytes) → length s < n → read_full n s ≡ none
unfolding read_full
read_full_short n s h = ground arith

-- A value that fits its width is read back, and what follows it is left.
pub read_uint-le_bytes :
    (w n : ℕ) (s : Bytes) → n < 256 ^ w → read_uint w (le_bytes w n ++ s) ≡ some (n, s)
unfolding read_uint
read_uint-le_bytes w n s h = rw (
  read_full-append w (le_bytes w n) s (length-le_bytes w n),
  read_uint,
  ◌>>=◌,
  from_le-le_bytes w n h,
)

pub read_byte : (b : ℕ) (s : Bytes) → b < 256 → read_uint 1 (b ∷ s) ≡ some (b, s)
unfolding le_bytes
read_byte b s h = let e : b % 256 ≡ b = omega arith in rw e at (read_uint-le_bytes 1 b s h)

replicate_zero_none : (n : ℕ) → n ≡ 0 → replicate_zero n ≡ []
unfolding replicate_zero
replicate_zero_none zero h = refl
replicate_zero_none (suc n) h = absurd (omega arith)

padded-append : (xs s : Bytes) → padded (length xs) (xs ++ s) ≡ xs
unfolding padded
padded-append xs s =
    rw
      (
        take-append xs s,
        replicate_zero_none (length xs - length (xs ++ s)) (omega (arith, length-append xs s)),
      )
      (append-nil xs)

-- What `buffer.Read` was asked for it returns whole, where it is there.
pub buffer_read-append : (xs s : Bytes) → buffer_read (length xs) (xs ++ s) ≡ some (xs, s)
unfolding buffer_read
buffer_read-append [] [] = refl
buffer_read-append [] (y ∷ s) = ap (λ b. some (b, y ∷ s)) (padded-append [] (y ∷ s))
buffer_read-append (x ∷ xs) s = rw (padded-append (x ∷ xs) s, drop-append xs s)

-- For a bytes.Reader there must be a byte to read.
pub reader_read-append :
    (xs : Bytes) (y : ℕ) (s : Bytes) → reader_read (length xs) (xs ++ y ∷ s) ≡ some (xs, y ∷ s)
unfolding reader_read
reader_read-append [] y s = ap (λ b. some (b, y ∷ s)) (padded-append [] (y ∷ s))
reader_read-append (x ∷ xs) y s = rw (padded-append (x ∷ xs) (y ∷ s), drop-append xs (y ∷ s))

pub reader_read-cons :
    (x : ℕ) (xs s : Bytes) → reader_read (length (x ∷ xs)) ((x ∷ xs) ++ s) ≡ some (x ∷ xs, s)
unfolding reader_read
reader_read-cons x xs s = rw (padded-append (x ∷ xs) s, drop-append xs s)

pub reader_read_count-cons :
    (x : ℕ) (xs s : Bytes)
    → reader_read_count (length (x ∷ xs)) ((x ∷ xs) ++ s) ≡ some ((x ∷ xs, length (x ∷ xs)), s)
unfolding reader_read_count
reader_read_count-cons x xs s = rw (padded-append (x ∷ xs) s, take-append xs s, drop-append xs s)

-- A uint32 conversion.
abbrev pub uint32 : ℕ → ℕ
uint32 n = n % 2 ^ 32

-- A byte string behind its length, as every codec of the program writes it.
unfoldable pub sized : Bytes → Bytes
sized xs = le_bytes 4 (uint32 (length xs)) ++ xs

uint32_small : (n : ℕ) → n < 2 ^ 32 → uint32 n ≡ n
uint32_small n h = omega arith

pub read_uint-sized :
    (xs s : Bytes) → length xs < 2 ^ 32 → read_uint 4 (sized xs ++ s) ≡ some (length xs, xs ++ s)
unfolding sized
read_uint-sized xs s h = rw (
  uint32_small (length xs) h,
  append_assoc (le_bytes 4 (length xs)) xs s,
  read_uint-le_bytes 4 (length xs) (xs ++ s) h,
)
