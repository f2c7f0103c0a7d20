-- ===== src/Types/Tests.antt =====
-- Transactions and blocks at work, and instances of the theorems (pkg/types).
use peerdns.Prelude.{
  ℕ, ◌+◌, ◌*◌, ◌≡◌, refl, ◌⊎◌, some, List, [], ◌∷◌, arith, Bytes, length, codes, hex, hex_digit,
}
use peerdns.Prelude.Int.{negsuc, pos}
use peerdns.Wire.{le_bytes, from_le, length-le_bytes}
use peerdns.Signers.{ed25519_signer_type}
use peerdns.Types.Hash.{Hash, string}
use peerdns.Types.Address.{address_hex, from_hex, hash_unmarshal_text}
use peerdns.Types.Address.Text.{from_hex-address_hex}
use peerdns.Types.Transaction.{Transaction}
use peerdns.Types.Transaction.RoundTrip.{IsStorable}
use peerdns.Types.Block
use peerdns.Types.Block.{Block, next_level, levels, root_of, compute_merkle_root}
use peerdns.Types.Block.RoundTrip.{IsStorableBlock, received_block, deserialize-serialize_block}
use peerdns.Types.Block.Merkle.{Collision, ids, length-levels, compute_merkle_root-injective}

-- An identifier or an address of a fixed size.
abbrev numbered : ℕ → ℕ → Bytes
numbered w n = le_bytes w n

abbrev payment : ℕ → ℕ → Transaction
payment n nonce = record {
  id = numbered 32 n;
  sender = numbered 20 1;
  recipient = numbered 20 2;
  amount = 500;
  fee = 3;
  nonce = nonce;
  timestamp = negsuc 4;
  signature = 7 ∷ 8 ∷ [];
  signature_type = ed25519_signer_type;
  payload = 9 ∷ [];
}

payment-IsStorable : (n : ℕ) → IsStorable (payment n 3)
payment-IsStorable n = record {
  id_size = length-le_bytes 32 n;
  sender_size = length-le_bytes 20 1;
  recipient_size = length-le_bytes 20 2;
  amount_fits = omega arith;
  fee_fits = omega arith;
  nonce_fits = omega arith;
  timestamp_fits = omega arith;
  size_fits = omega arith;
}

abbrev two_payments : Block
two_payments = record {
  index = 12;
  timestamp = pos 1000;
  previous_hash = numbered 32 11;
  hash = numbered 32 12;
  merkle_root = numbered 32 13;
  signature = 1 ∷ 2 ∷ 3 ∷ [];
  signature_type = ed25519_signer_type;
  validator_id = numbered 20 4;
  transactions = payment 5 3 ∷ payment 6 3 ∷ [];
  difficulty = 1;
  version = 1;
  finalized_by = numbered 20 4 ∷ [];
}

two_payments-IsStorableBlock : IsStorableBlock two_payments
two_payments-IsStorableBlock = record {
  index_fits = omega arith;
  timestamp_fits = omega arith;
  previous_size = length-le_bytes 32 11;
  hash_length = length-le_bytes 32 12;
  root_size = length-le_bytes 32 13;
  signature_fits = omega arith;
  validator_size = length-le_bytes 20 4;
  transactions_storable = (payment-IsStorable 5, (payment-IsStorable 6, tt));
  count_fits = omega arith;
  difficulty_fits = omega arith;
  version_fits = omega arith;
  finalized_sizes = (length-le_bytes 20 4, tt);
  finalized_fits = omega arith;
}

deserialize-serialize_block_example :
    (bytes : Bytes) × (Block.serialize two_payments ≡ some bytes)
    × (Block.deserialize bytes ≡ some (received_block two_payments))
    × (length bytes ≡ Block.size two_payments + 4 * 2)
deserialize-serialize_block_example =
    deserialize-serialize_block two_payments two_payments-IsStorableBlock

-- A hash for the tests: the number that the bytes stand for, in 32 bytes.
abbrev toy_hash : Bytes → Hash
toy_hash b = le_bytes 32 (from_le b)

toy_hash_sized : (b : Bytes) → length (toy_hash b) ≡ 32
toy_hash_sized b = length-le_bytes 32 (from_le b)

abbrev three : List Bytes
three = numbered 32 1 ∷ numbered 32 2 ∷ numbered 32 3 ∷ []

length-levels_example : length (levels toy_hash 3 three) ≡ 1
length-levels_example = length-levels toy_hash toy_hash_sized 3 three (omega arith) (omega arith)

abbrev morning : List Transaction
morning = payment 5 3 ∷ payment 6 3 ∷ payment 7 3 ∷ []

abbrev evening : List Transaction
evening = payment 5 8 ∷ payment 6 9 ∷ payment 7 10 ∷ []

compute_merkle_root-injective_example : (ids morning ≡ ids evening) ⊎ Collision toy_hash
unfolding compute_merkle_root
compute_merkle_root-injective_example =
    compute_merkle_root-injective toy_hash morning evening toy_hash_sized
      (length-le_bytes 32 5, (length-le_bytes 32 6, (length-le_bytes 32 7, tt)))
      (length-le_bytes 32 5, (length-le_bytes 32 6, (length-le_bytes 32 7, tt))) refl refl

abbrev wallet : Bytes
wallet = numbered 20 0xabcdef

wallet_text : address_hex wallet ≡ codes "0xefcdab0000000000000000000000000000000000"
unfolding address_hex le_bytes hex hex_digit
wallet_text = refl

from_hex-address_hex_example :
    (from_hex (address_hex wallet) ≡ some wallet)
    × (hash_unmarshal_text (string (numbered 32 77)) ≡ some (numbered 32 77))
unfolding le_bytes
from_hex-address_hex_example =
    from_hex-address_hex wallet (numbered 32 77) refl (omega arith) refl (omega arith)
