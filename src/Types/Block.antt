-- ===== src/Types/Block.antt =====
-- pkg/types/block.go: blocks, their hashes and Merkle roots, and how they are written and read.
pub mod Merkle
pub mod Made
pub mod RoundTrip
use peerdns.Prelude.{
  ℕ, zero, suc, ◌+◌, ◌*◌, ◌^◌, ◌≡◌, Option, none, some, List, [], ◌∷◌, ◌++◌, ltb, leb, ◌==◌,
  if◌then◌else◌, ◌&&◌, Bytes, length, map,
}
use peerdns.Prelude.Int.{ℤ, to_uint64, to_int64}
use peerdns.Wire.{Parser, ◌>>=◌, pure, le_bytes, read_full, read_uint, uint32}
use peerdns.Signers.{SignerType, signer_type_uint32, signer_type_from_uint32}
use peerdns.Types.Hash.{Hash, Address, hash_size, address_size, zero_hash}
use peerdns.Types.Transaction
use peerdns.Types.Transaction.{Transaction, put_uint64, clipped, get_sized}

-- `index` and `difficulty` are a uint64, `timestamp` is an int64, `version` a uint32.
pub record Block : Type 0 where
  pub index : ℕ
  pub timestamp : ℤ
  pub previous_hash : Hash
  pub hash : Hash
  pub merkle_root : Hash
  pub signature : Bytes
  pub signature_type : SignerType
  pub validator_id : Address
  pub transactions : List Transaction
  pub difficulty : ℕ
  pub version : ℕ
  pub finalized_by : List Address

-- One level of the tree: pairs are hashed, a last one alone goes up as it is.
unfoldable pub next_level : (Bytes → Hash) → List Bytes → List Bytes
next_level sha256 [] = []
next_level sha256 (x ∷ []) = x ∷ []
next_level sha256 (x ∷ y ∷ rest) = sha256 (x ++ y) ∷ next_level sha256 rest

-- The loop of `ComputeMerkleRoot`, on fuel.
unfoldable pub levels : (Bytes → Hash) → ℕ → List Bytes → List Bytes
levels sha256 zero hashes = hashes
levels sha256 (suc fuel) hashes =
    let rest = levels sha256 fuel (next_level sha256 hashes) in
    if ltb 1 (length hashes) then rest else hashes

-- The first element; the zero hash for a block with no transactions.
unfoldable pub root_of : List Bytes → Hash
root_of [] = zero_hash
root_of (h ∷ hashes) = h

-- `ComputeMerkleRoot`, with SHA-256 as a parameter. Each round leaves fewer hashes, so their number
-- is fuel enough.
unfoldable pub compute_merkle_root : (Bytes → Hash) → List Transaction → Hash
compute_merkle_root sha256 txs =
    let ids : List Bytes = map (λ tx. tx.id) txs in root_of (levels sha256 (length ids) ids)

-- What `ComputeHash` feeds to the hash function.
unfoldable pub hash_contents : Block → Bytes
hash_contents b =
    put_uint64 b.index
    ++ (put_uint64 (to_uint64 b.timestamp)
        ++ (b.previous_hash
            ++ (b.merkle_root
                ++ (b.validator_id ++ (put_uint64 b.difficulty ++ le_bytes 4 b.version)))))

unfoldable pub compute_hash : (Bytes → Hash) → Block → Hash
compute_hash sha256 b = sha256 (hash_contents b)

-- `NewBlock` at a time of the clock, in seconds; a block with no transactions is an error.
unfoldable pub new_block :
    (Bytes → Hash) → ℤ → ℕ → Hash → List Transaction → Address → ℕ → Option Block
new_block sha256 now index previous_hash [] validator_id difficulty = none
new_block sha256 now index previous_hash (tx ∷ txs) validator_id difficulty =
    let b : Block = record {
      index = index;
      timestamp = now;
      previous_hash = previous_hash;
      hash = zero_hash;
      merkle_root = compute_merkle_root sha256 (tx ∷ txs);
      signature = [];
      signature_type = [];
      validator_id = validator_id;
      transactions = tx ∷ txs;
      difficulty = difficulty;
      version = 1;
      finalized_by = [];
    } in
    some (record b { hash = compute_hash sha256 b })

-- Each transaction behind its length.
unfoldable pub put_transactions : List Transaction → Option Bytes
put_transactions [] = some []
put_transactions (tx ∷ txs) = elim (Transaction.serialize tx) [
  | none ↦ none
  | some bytes ↦ elim (put_transactions txs) [
    | none ↦ none
    | some rest ↦ some (le_bytes 4 (uint32 (length bytes)) ++ (bytes ++ rest))
  ]
]

unfoldable pub put_addresses : List Address → Bytes
put_addresses [] = []
put_addresses (a ∷ addresses) = a ++ put_addresses addresses

-- The block around its transactions, which are written already.
unfoldable pub block_bytes : Block → Bytes → Bytes
block_bytes b txs =
    put_uint64 b.index
    ++ (put_uint64 (to_uint64 b.timestamp)
        ++ (b.previous_hash
            ++ (b.hash
                ++ (b.merkle_root
                    ++ (le_bytes 4 (signer_type_uint32 b.signature_type)
                        ++ (clipped b.signature
                            ++ (b.validator_id
                                ++ (put_uint64 b.difficulty
                                    ++ (le_bytes 4 b.version
                                        ++ (le_bytes 4 (length b.transactions)
                                            ++ (txs
                                                ++ (le_bytes 4 (length b.finalized_by)
                                                    ++ put_addresses b.finalized_by))))))))))))

-- `Block.Serialize`. With 2 ^ 32 transactions or finalizing validators their uint32 count is wrong,
-- and an index or a slice of a buffer that is too small panics, which is `none`.
unfoldable pub serialize : Block → Option Bytes
serialize b =
    if ltb (length b.transactions) (2 ^ 32) && ltb (length b.finalized_by) (2 ^ 32)
    then elim (put_transactions b.transactions) [
      | none ↦ none
      | some txs ↦ some (block_bytes b txs)
    ]
    else none

-- A transaction in as many bytes as its length says.
unfoldable pub get_entry : Parser Transaction
get_entry = do
  bytes ← get_sized
  λ s. elim (Transaction.deserialize bytes) [ none ↦ none | some tx ↦ some (tx, s) ]

unfoldable pub get_transactions : ℕ → Parser (List Transaction)
get_transactions zero = pure []
get_transactions (suc n) = do tx ← get_entry; txs ← get_transactions n; pure (tx ∷ txs)

unfoldable pub get_addresses : ℕ → Parser (List Address)
get_addresses zero = pure []
get_addresses (suc n) = do
  a ← read_full address_size
  addresses ← get_addresses n
  pure (a ∷ addresses)

unfoldable pub get_block : Parser Block
get_block = do
  index ← read_uint 8
  timestamp ← read_uint 8
  previous_hash ← read_full hash_size
  hash ← read_full hash_size
  merkle_root ← read_full hash_size
  signature_type ← read_uint 4
  signature ← get_sized
  validator_id ← read_full address_size
  difficulty ← read_uint 8
  version ← read_uint 4
  tx_count ← read_uint 4
  transactions ← get_transactions tx_count
  finalized_count ← read_uint 4
  finalized_by ← get_addresses finalized_count
  pure (record {
    index = index;
    timestamp = to_int64 timestamp;
    previous_hash = previous_hash;
    hash = hash;
    merkle_root = merkle_root;
    signature = signature;
    signature_type = signer_type_from_uint32 signature_type;
    validator_id = validator_id;
    transactions = transactions;
    difficulty = difficulty;
    version = version;
    finalized_by = finalized_by;
  })

abbrev pub min_size : ℕ
min_size = 8 + 8 + hash_size * 3 + 4 + 4 + address_size + 8 + 4 + 4

-- `DeserializeBlock`: what is left over is ignored.
unfoldable pub deserialize : Bytes → Option Block
deserialize bytes =
    if ltb (length bytes) min_size
    then none
    else elim (get_block bytes) [ none ↦ none | some (b, rest) ↦ some b ]

unfoldable pub transactions_size : List Transaction → ℕ
transactions_size [] = 0
transactions_size (tx ∷ txs) = 4 + Transaction.size tx + transactions_size txs

-- `Block.Size`
unfoldable pub size : Block → ℕ
size b =
    8
    + 8
    + hash_size * 3
    + 4
    + 4
    + length b.signature
    + address_size
    + 8
    + 4
    + 4
    + transactions_size b.transactions
    + 4
    + length b.finalized_by * address_size
