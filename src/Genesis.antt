-- ===== src/Genesis.antt =====
-- pkg/genesis: the configuration of the genesis block, and the block made from it. Reading the YAML
-- file is left out, and `SetString` of math/big at base 10 is a parameter.
pub mod Allocation
pub mod Tests
use peerdns.Prelude.{
  ℕ, ◌%◌, ◌^◌, ◌≡◌, Option, none, some, List, [], ◌∷◌, ◌++◌, ◌==◌, if◌then◌else◌, Bytes, codes,
  ◌||◌, Bool, true, false,
}
use peerdns.Prelude.Int.{ℤ, pos, negsuc}
use peerdns.Prelude.Map.{Map}
use peerdns.Signers.{bls_signer_type}
use peerdns.Types.Hash.{Hash, Address, zero_hash}
use peerdns.Types.Address.{from_hex}
use peerdns.Types.Transaction.{Transaction}
use peerdns.Types.Block.{Block, new_block}

-- `Genesis`: the configuration is its `ChainID`, an allocation is its `Balance`.
pub record Genesis : Type 0 where
  pub chain_id : ℕ
  pub alloc : Map Bytes
  pub difficulty : ℕ
  pub timestamp : ℤ
  pub extra_data : Bytes

pub data InvalidGenesis : Type 0 where
  zero_chain_id zero_difficulty zero_timestamp no_account : InvalidGenesis
  empty_address empty_balance : InvalidGenesis

-- The loop of `Validate` over the allocations.
unfoldable pub validate_alloc : Map Bytes → Option InvalidGenesis
validate_alloc [] = none
validate_alloc (([], balance) ∷ alloc) = some empty_address
validate_alloc ((c ∷ address, []) ∷ alloc) = some empty_balance
validate_alloc ((c ∷ address, d ∷ balance) ∷ alloc) = validate_alloc alloc

unfoldable pub check_accounts : Map Bytes → Option InvalidGenesis
check_accounts [] = some no_account
check_accounts (e ∷ alloc) = validate_alloc (e ∷ alloc)

unfoldable pub is_zero_timestamp : ℤ → Bool
is_zero_timestamp (pos n) = n == 0
is_zero_timestamp (negsuc n) = false

-- `Validate`, with `none` for no error.
unfoldable pub validate : Genesis → Option InvalidGenesis
validate g =
    if g.chain_id == 0
    then some zero_chain_id
    else if g.difficulty == 0
    then some zero_difficulty
    else if is_zero_timestamp g.timestamp
    then some zero_timestamp
    else check_accounts g.alloc

-- The transaction that allocates an amount to an address.
unfoldable pub allocation : (Bytes → Hash) → Address → ℤ → Bytes → Address → ℕ → Transaction
allocation sha256 miner timestamp spelling address amount = record {
  id = sha256 (codes "alloc-" ++ spelling);
  sender = miner;
  recipient = address;
  amount = amount;
  fee = 0;
  nonce = 0;
  timestamp = timestamp;
  signature = [];
  signature_type = bls_signer_type;
  payload = codes "Initial allocation";
}

-- The loop of `CreateGenesisBlock`: an address or a balance that cannot be read is an error.
unfoldable pub allocations :
    (Bytes → Hash) → (Bytes → Option ℕ) → Address → ℤ → Map Bytes → Option (List Transaction)
allocations sha256 set_string miner timestamp [] = some []
allocations sha256 set_string miner timestamp ((spelling, balance) ∷ alloc) =
    let rest = allocations sha256 set_string miner timestamp alloc in
    elim (from_hex spelling) [
      | none ↦ none
      | some address ↦ elim (set_string balance) [
        | none ↦ none
        | some amount ↦ elim rest [
          | none ↦ none
          | some txs ↦ some (allocation sha256 miner timestamp spelling address amount ∷ txs)
        ]
      ]
    ]

-- `CreateGenesisBlock` at a time of the clock. `set_string` gives the uint64 of a balance.
unfoldable pub create_genesis_block :
    (Bytes → Hash) → (Bytes → Option ℕ) → ℤ → Address → Genesis → Option Block
create_genesis_block sha256 set_string now miner g =
    elim (allocations sha256 set_string miner g.timestamp g.alloc) [
      | none ↦ none
      | some txs ↦ new_block sha256 now 0 zero_hash txs miner g.difficulty
    ]
