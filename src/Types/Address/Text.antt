-- ===== src/Types/Address/Text.antt =====
-- Addresses and hashes through their textual form, and the tests for zero (pkg/types/address.go and
-- hash.go).
use peerdns.Prelude.{
  ℕ, ◌+◌, ◌*◌, ◌/◌, ◌%◌, ◌<◌, ◌≡◌, ◌↔◌, refl, ap, true, false, some, [], ◌∷◌, arith, Bytes, beq,
  hex, hex_digit, length, length-hex,
}
use peerdns.Wire.{replicate_zero}
use peerdns.Types.Hash.{Hash, Address, hash_size, address_size, string}
use peerdns.Types.Address.{
  zero_address, is_zero_address, is_zero, address_hex, unhex_digit, join_digits, unhex, trim_prefix,
  decode_address, from_hex, hash_unmarshal_text,
}

-- Numbers that fit a byte.
abbrev pub AllBytes : Bytes → Type 0
AllBytes [] = Unit
AllBytes (b ∷ bs) = (b < 256) × AllBytes bs

unhex_digit-hex_digit : (n : ℕ) → n < 16 → unhex_digit (hex_digit n) ≡ some n
unfolding unhex_digit hex_digit
unhex_digit-hex_digit n h = ground arith

unhex-hex : (bs : Bytes) → AllBytes bs → unhex (hex bs) ≡ some bs
unfolding unhex hex join_digits
unhex-hex [] a = refl
unhex-hex (b ∷ bs) a =
    let e : 16 * (b / 16) + b % 16 ≡ b = omega arith in
    rw
      (
        unhex_digit-hex_digit (b / 16) (omega (arith, a.0)),
        unhex_digit-hex_digit (b % 16) (omega arith),
        unhex-hex bs a.1,
      )
      (ap (λ x. some (x ∷ bs)) e)

decode_address-hex :
    (a : Address) → length a ≡ address_size → AllBytes a → decode_address (hex a) ≡ some a
unfolding decode_address
decode_address-hex a h bytes = ground (arith, length-hex a, unhex-hex a bytes)

-- An address is read back from its text, and a hash from its own, which has no prefix.
pub from_hex-address_hex :
    (a : Address) (h : Hash)
    → length a ≡ address_size
    → AllBytes a
    → length h ≡ hash_size
    → AllBytes h
    → (from_hex (address_hex a) ≡ some a) × (hash_unmarshal_text (string h) ≡ some h)
unfolding from_hex address_hex trim_prefix hash_unmarshal_text string
from_hex-address_hex a h fits bytes hash_fits hash_bytes =
    (decode_address-hex a fits bytes, ground (arith, unhex-hex h hash_bytes))

is_zero_iff : (a : Bytes) → (is_zero a ≡ true) ↔ (a ≡ replicate_zero (length a))
unfolding is_zero replicate_zero
is_zero_iff [] = (λ e. refl, λ e. refl)
is_zero_iff (b ∷ bs) = ground (arith, is_zero_iff bs)

-- For an address of the fixed size the method `is_zero` tells whether it is the zero address, while
-- the function `is_zero_address` says no to every address, the zero address too.
pub is_zero-zero_address :
    (a : Address)
    → length a ≡ address_size
    → ((is_zero a ≡ true) ↔ (a ≡ zero_address)) × (is_zero_address a ≡ false)
unfolding is_zero_address zero_address beq
is_zero-zero_address [] h = absurd (omega arith)
is_zero-zero_address (b ∷ bs) h = (rw h at (is_zero_iff (b ∷ bs)), refl)
