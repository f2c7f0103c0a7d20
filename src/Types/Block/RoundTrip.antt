-- ===== src/Types/Block/RoundTrip.antt =====
-- What a block is after it was written and read (pkg/types/block.go), and its size.
use mathlib.Core.List.{append_assoc, append-nil}
use peerdns.Prelude.{
  ◌+◌, ◌*◌, ◌^◌, ◌<◌, ◌≡◌, refl, ap, sym, ◌∙◌, some, List, [], ◌∷◌, ◌++◌, arith, Bytes, length, map,
  length-append,
}
use peerdns.Prelude.Int.{to_uint64, IsInt64, to_int64-to_uint64, to_uint64-lt}
use peerdns.Wire.{◌>>=◌, le_bytes, length-le_bytes, read_full-append, read_uint-le_bytes, uint32}
use peerdns.Signers.{signer_type_uint32, signer_type_from_uint32, signer_type_uint32-lt}
use peerdns.Types.Hash.{Address, hash_size, address_size}
use peerdns.Types.Transaction
use peerdns.Types.Transaction.{
  Transaction, put_uint64, clipped, get_sized, transaction_bytes, fixed_size,
}
use peerdns.Types.Transaction.RoundTrip.{
  received_transaction, IsStorable, get_sized-clipped, clipped_small, length-clipped,
  length-transaction_bytes, serialize-transaction_bytes, deserialize-transaction_bytes,
}
use peerdns.Types.Block.{
  Block, put_transactions, put_addresses, block_bytes, serialize, get_entry, get_transactions,
  get_addresses, get_block, deserialize, size, transactions_size,
}

abbrev pub AllStorable : List Transaction → Type 0
AllStorable [] = Unit
AllStorable (tx ∷ txs) = IsStorable tx × AllStorable txs

abbrev pub AllAddresses : List Address → Type 0
AllAddresses [] = Unit
AllAddresses (a ∷ addresses) = (length a ≡ address_size) × AllAddresses addresses

-- The fields are values of their types in the source, and the lengths fit 32 bits.
pub record IsStorableBlock (b : Block) : Type 0 where
  pub index_fits : b.index < 2 ^ 64
  pub timestamp_fits : IsInt64 b.timestamp
  pub previous_size : length b.previous_hash ≡ hash_size
  pub hash_length : length b.hash ≡ hash_size
  pub root_size : length b.merkle_root ≡ hash_size
  pub signature_fits : length b.signature < 2 ^ 32
  pub validator_size : length b.validator_id ≡ address_size
  pub transactions_storable : AllStorable b.transactions
  pub count_fits : length b.transactions < 2 ^ 32
  pub difficulty_fits : b.difficulty < 2 ^ 64
  pub version_fits : b.version < 2 ^ 32
  pub finalized_sizes : AllAddresses b.finalized_by
  pub finalized_fits : length b.finalized_by < 2 ^ 32

-- Signature schemes without a number of their own are unknown, the block's and the transactions'.
abbrev pub received_block : Block → Block
received_block b = record b {
  signature_type = signer_type_from_uint32 (signer_type_uint32 b.signature_type);
  transactions = map received_transaction b.transactions;
}

-- What is written of transactions that can be written.
unfoldable entries : List Transaction → Bytes
entries [] = []
entries (tx ∷ txs) = clipped (transaction_bytes tx) ++ entries txs

entry_fits : (tx : Transaction) → IsStorable tx → length (transaction_bytes tx) < 2 ^ 32
entry_fits tx w = omega (arith, length-transaction_bytes tx w, w.size_fits)

put_transactions-entries :
    (txs : List Transaction) → AllStorable txs → put_transactions txs ≡ some (entries txs)
unfolding put_transactions entries
put_transactions-entries [] w = refl
put_transactions-entries (tx ∷ txs) w =
    let fits = entry_fits tx w.0 in
    let e : uint32 (length (transaction_bytes tx)) ≡ length (transaction_bytes tx) =
      omega (arith, fits) in
    rw
      (
        put_transactions,
        serialize-transaction_bytes tx w.0,
        put_transactions-entries txs w.1,
        clipped_small (transaction_bytes tx) fits,
        e,
        append_assoc (le_bytes 4 (length (transaction_bytes tx))) (transaction_bytes tx)
            (entries txs),
      )
      refl

get_entry-clipped :
    (tx : Transaction) (s : Bytes)
    → IsStorable tx
    → get_entry (clipped (transaction_bytes tx) ++ s) ≡ some (received_transaction tx, s)
unfolding get_entry
get_entry-clipped tx s w = rw (
  get_sized-clipped (transaction_bytes tx) s (entry_fits tx w),
  ◌>>=◌,
  deserialize-transaction_bytes tx w,
)

get_transactions-entries :
    (txs : List Transaction) (s : Bytes)
    → AllStorable txs
    → get_transactions (length txs) (entries txs ++ s) ≡ some (map received_transaction txs, s)
unfolding get_transactions entries
get_transactions-entries [] s w = refl
get_transactions-entries (tx ∷ txs) s w =
    simp append_assoc (rw (get_entry-clipped tx _ w.0, ◌>>=◌, get_transactions-entries txs s w.1))

get_addresses-put_addresses :
    (addresses : List Address) (s : Bytes)
    → AllAddresses addresses
    → get_addresses (length addresses) (put_addresses addresses ++ s) ≡ some (addresses, s)
unfolding get_addresses put_addresses
get_addresses-put_addresses [] s w = refl
get_addresses-put_addresses (a ∷ addresses) s w =
    simp append_assoc (
      rw
        (read_full-append address_size a _ w.0, ◌>>=◌, get_addresses-put_addresses addresses s w.1))

get_block-block_bytes :
    (b : Block) (s : Bytes)
    → IsStorableBlock b
    → get_block (block_bytes b (entries b.transactions) ++ s) ≡ some (received_block b, s)
unfolding get_block block_bytes
get_block-block_bytes b s w = simp append_assoc (
    rw (
      read_uint-le_bytes 8 b.index _ w.index_fits,
      ◌>>=◌,
      read_uint-le_bytes 8 (to_uint64 b.timestamp) _ (to_uint64-lt b.timestamp),
      read_full-append hash_size b.previous_hash _ w.previous_size,
      read_full-append hash_size b.hash _ w.hash_length,
      read_full-append hash_size b.merkle_root _ w.root_size,
      read_uint-le_bytes 4 (signer_type_uint32 b.signature_type) _
          (signer_type_uint32-lt b.signature_type),
      get_sized-clipped b.signature _ w.signature_fits,
      read_full-append address_size b.validator_id _ w.validator_size,
      read_uint-le_bytes 8 b.difficulty _ w.difficulty_fits,
      read_uint-le_bytes 4 b.version _ w.version_fits,
      read_uint-le_bytes 4 (length b.transactions) _ w.count_fits,
      get_transactions-entries b.transactions _ w.transactions_storable,
      read_uint-le_bytes 4 (length b.finalized_by) _ w.finalized_fits,
      get_addresses-put_addresses b.finalized_by _ w.finalized_sizes,
      to_int64-to_uint64 b.timestamp w.timestamp_fits,
    ))

length-entries :
    (txs : List Transaction)
    → AllStorable txs
    → length (entries txs) ≡ transactions_size txs + 4 * length txs
unfolding entries transactions_size Transaction.size
length-entries [] w = refl
length-entries (tx ∷ txs) w = omega (
  arith,
  length-append (clipped (transaction_bytes tx)) (entries txs),
  length-clipped (transaction_bytes tx) (entry_fits tx w.0),
  length-transaction_bytes tx w.0,
  length-entries txs w.1,
)

length-put_addresses :
    (addresses : List Address)
    → AllAddresses addresses
    → length (put_addresses addresses) ≡ length addresses * address_size
unfolding put_addresses
length-put_addresses [] w = refl
length-put_addresses (a ∷ addresses) w =
    omega (arith, length-append a (put_addresses addresses), length-put_addresses addresses w.1)

length-block_bytes :
    (b : Block)
    → IsStorableBlock b
    → length (block_bytes b (entries b.transactions)) ≡ size b + 4 * length b.transactions
unfolding block_bytes size
length-block_bytes b w =
    simp (length-append, length-le_bytes)
      (rw
        (
          length-clipped b.signature w.signature_fits,
          length-entries b.transactions w.transactions_storable,
          length-put_addresses b.finalized_by w.finalized_sizes,
        )
        (omega (arith, w.previous_size, w.hash_length, w.root_size, w.validator_size)))

serialize-block_bytes :
    (b : Block) → IsStorableBlock b → serialize b ≡ some (block_bytes b (entries b.transactions))
unfolding serialize
serialize-block_bytes b w = ground (
  arith,
  put_transactions-entries b.transactions w.transactions_storable,
  w.count_fits,
  w.finalized_fits,
)

deserialize-block_bytes :
    (b : Block)
    → IsStorableBlock b
    → deserialize (block_bytes b (entries b.transactions)) ≡ some (received_block b)
unfolding deserialize size
deserialize-block_bytes b w =
    let bytes = block_bytes b (entries b.transactions) in
    let r : get_block bytes ≡ some (received_block b, []) =
      ap get_block (sym (append-nil bytes)) ∙ get_block-block_bytes b [] w in
    ground (arith, r, length-block_bytes b w)

-- A block whose fields are in their ranges, with transactions that can be written, is written, and
-- what is written is read back as it was, but that signature schemes without a number of their own
-- arrive as "unknown". `Size` is four bytes less for each transaction than what is written.
pub deserialize-serialize_block :
    (b : Block)
    → IsStorableBlock b
    → (bytes : Bytes) × (serialize b ≡ some bytes)
      × (deserialize bytes ≡ some (received_block b))
      × (length bytes ≡ size b + 4 * length b.transactions)
deserialize-serialize_block b w = (
  block_bytes b (entries b.transactions),
  serialize-block_bytes b w,
  deserialize-block_bytes b w,
  length-block_bytes b w,
)
