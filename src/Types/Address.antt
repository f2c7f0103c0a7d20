-- ===== src/Types/Address.antt =====
-- pkg/types/address.go: addresses and their textual form; and the textual form of pkg/types/hash.go.
pub mod Text
use peerdns.Prelude.{
  ℕ, zero, suc, ◌+◌, ◌-◌, ◌*◌, ◌^◌, Bool, true, Option, none, some, [], ◌∷◌, ◌++◌, ◌&&◌, ltb, leb,
  ◌==◌, if◌then◌else◌, Bytes, beq, codes, hex, length,
}
use peerdns.Wire.{replicate_zero}
use peerdns.Types.Hash.{Hash, Address, hash_size, address_size}

unfoldable pub zero_address : Address
zero_address = replicate_zero address_size

-- It compares the array with nil.
unfoldable pub is_zero_address : Address → Bool
is_zero_address h = beq h []

-- The method `IsZero`, which looks at every byte.
unfoldable pub is_zero : Address → Bool
is_zero [] = true
is_zero (b ∷ bs) = (b == 0) && is_zero bs

-- `NewAddress`, and `UnmarshalBinary` too.
unfoldable pub new_address : Bytes → Option Address
new_address bytes = if length bytes == address_size then some bytes else none

-- `Address.Hex`
unfoldable pub address_hex : Address → Bytes
address_hex a = codes "0x" ++ hex a

-- A digit as encoding/hex reads it, in either case.
unfoldable pub unhex_digit : ℕ → Option ℕ
unhex_digit c =
    if leb 48 c && leb c 57
    then some (c - 48)
    else if leb 97 c && leb c 102
    then some (c - 87)
    else if leb 65 c && leb c 70
    then some (c - 55)
    else none

unfoldable pub join_digits : Option ℕ → Option ℕ → Option Bytes → Option Bytes
join_digits none l rest = none
join_digits (some h) none rest = none
join_digits (some h) (some l) none = none
join_digits (some h) (some l) (some bytes) = some ((16 * h + l) ∷ bytes)

-- `hex.DecodeString`: an odd number of digits is an error.
unfoldable pub unhex : Bytes → Option Bytes
unhex [] = some []
unhex (c ∷ []) = none
unhex (c ∷ d ∷ cs) = join_digits (unhex_digit c) (unhex_digit d) (unhex cs)

-- `strings.TrimPrefix(s, "0x")`
unfoldable pub trim_prefix : Bytes → Bytes
trim_prefix [] = []
trim_prefix (c ∷ []) = c ∷ []
trim_prefix (c ∷ d ∷ cs) = if (c == 48) && (d == 120) then cs else c ∷ d ∷ cs

unfoldable pub decode_address : Bytes → Option Address
decode_address cleaned = if length cleaned == address_size * 2 then unhex cleaned else none

-- `FromHex`, and `UnmarshalText` too.
unfoldable pub from_hex : Bytes → Option Address
from_hex s = decode_address (trim_prefix s)

-- `Hash.UnmarshalText`
unfoldable pub hash_unmarshal_text : Bytes → Option Hash
hash_unmarshal_text text = elim (unhex text) [
  | none ↦ none
  | some bytes ↦ if length bytes == hash_size then some bytes else none
]
