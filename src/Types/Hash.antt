-- ===== src/Types/Hash.antt =====
-- pkg/types/hash.go, address.go and constants.go: fixed arrays of bytes, as byte strings.
use peerdns.Prelude.{ℕ, Bool, Bytes, beq, hex, length}
use peerdns.Wire.{replicate_zero}

abbrev pub hash_size : ℕ
hash_size = 32

abbrev pub address_size : ℕ
address_size = 20

abbrev pub Hash : Type 0
Hash = Bytes

abbrev pub Address : Type 0
Address = Bytes

unfoldable pub zero_hash : Hash
zero_hash = replicate_zero hash_size

unfoldable pub is_zero_hash : Hash → Bool
is_zero_hash h = beq h (replicate_zero (length h))

-- `Hash.String`
unfoldable pub string : Hash → Bytes
string h = hex h
