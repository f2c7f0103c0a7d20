-- ===== src/State/Decoder.antt =====
-- What the decoders of pkg/state share: readers that may also panic, and the compression library.
use peerdns.Prelude.{
  ℕ, suc, ◌%◌, ◌/◌, ◌^◌, ◌<◌, ◌≡◌, refl, Option, none, some, ◌++◌, arith, leb, if◌then◌else◌, Bytes,
  length,
}
use peerdns.Prelude.Int.{ℤ, to_uint64, to_int64, IsInt64, to_int64-to_uint64, to_uint64-lt}
use peerdns.Wire.{
  Parser, le_bytes, read_uint, reader_read, reader_read-append, read_uint-le_bytes, uint32,
}

-- A value, an error, or a panic.
pub data Decoded {ℓ} (A : Type ℓ) : Type ℓ where
  decoded : A → Decoded A
  malformed : Decoded A
  panicked : Decoded A

abbrev pub Decoder {ℓ} : Type ℓ → Type ℓ
Decoder A = Bytes → Decoded (A × Bytes)

infixl 5 ◌>>=◌
abbrev pub ◌>>=◌ {ℓ κ} : {A : Type ℓ} {B : Type κ} → Decoder A → (A → Decoder B) → Decoder B
◌>>=◌ m f s = elim (m s) [
  | decoded (a, rest) ↦ f a rest
  | malformed ↦ malformed
  | panicked ↦ panicked
]

abbrev pub pure {ℓ} : {A : Type ℓ} → A → Decoder A
pure a s = decoded (a, s)

-- A reader that does not panic.
abbrev pub parse {ℓ} : {A : Type ℓ} → Parser A → Decoder A
parse p s = elim (p s) [ none ↦ malformed | some r ↦ decoded r ]

-- The library github.com/klauspost/compress/s2.
pub record S2 : Type 0 where
  pub encode : Bytes → Bytes
  pub decode : Bytes → Option Bytes

abbrev pub IsLossless : S2 → Type 0
IsLossless s2 = (b : Bytes) → s2.decode (s2.encode b) ≡ some b

-- A slice of the length that was read, an int32: `make` panics where it is negative.
unfoldable pub read_slice : ℕ → Decoder Bytes
read_slice n s = if leb (2 ^ 31) n then panicked else parse (reader_read n) s

unfoldable pub get_bytes : Decoder Bytes
get_bytes = do n ← parse (read_uint 4); read_slice n

abbrev pub put_int64 : ℤ → Bytes
put_int64 z = le_bytes 8 (to_uint64 z)

unfoldable pub get_int64 : Decoder ℤ
get_int64 = do n ← parse (read_uint 8); pure (to_int64 n)

-- The whole of a decoder on compressed data; what is left over is ignored.
unfoldable pub decode_with {ℓ} : {A : Type ℓ} → S2 → Decoder A → Bytes → Decoded A
decode_with s2 d data_bytes = elim (s2.decode data_bytes) [
  | none ↦ malformed
  | some b ↦ elim (d b) [
    | decoded (a, rest) ↦ decoded a
    | malformed ↦ malformed
    | panicked ↦ panicked
  ]
]

pub decode_with-encode {ℓ} :
    {A : Type ℓ} (s2 : S2) (d : Decoder A) (b rest : Bytes) (a : A)
    → IsLossless s2
    → d b ≡ decoded (a, rest)
    → decode_with s2 d (s2.encode b) ≡ decoded a
unfolding decode_with
decode_with-encode s2 d b rest a h e = rw (decode_with, h b, e) refl

pub get_int64-put_int64 :
    (z : ℤ) (s : Bytes) → IsInt64 z → get_int64 (put_int64 z ++ s) ≡ decoded (z, s)
unfolding get_int64
get_int64-put_int64 z s h =
    rw (read_uint-le_bytes 8 (to_uint64 z) s (to_uint64-lt z), ◌>>=◌, to_int64-to_uint64 z h)

-- More must follow: at the end of the data a read of nothing fails too.
pub get_bytes-sized :
    (xs : Bytes) (w n : ℕ) (s : Bytes)
    → length xs < 2 ^ 31
    → get_bytes (le_bytes 4 (uint32 (length xs)) ++ (xs ++ (le_bytes (suc w) n ++ s)))
      ≡ decoded (xs, le_bytes (suc w) n ++ s)
unfolding get_bytes read_slice le_bytes
get_bytes-sized xs w n s h =
    let e : uint32 (length xs) ≡ length xs = omega arith in
    let r = read_uint-le_bytes 4 (length xs) (xs ++ (le_bytes (suc w) n ++ s)) (omega arith) in
    rw (e, r, ◌>>=◌) (ground (arith, reader_read-append xs (n % 256) (le_bytes w (n / 256) ++ s)))
