-- ===== src/Ledger/Validation.antt =====
-- pkg/ledger/validation.go and utils.go: the checks of a block's transactions and of its difficulty.
pub mod Transactions
pub mod Difficulty
pub mod Blocks
use peerdns.Prelude.{
  ℕ, zero, suc, ◌+◌, ◌%◌, ◌^◌, Bool, true, false, not, Option, none, some, List, [], ◌∷◌, ltb, leb,
  ◌==◌, if◌then◌else◌,
}
use peerdns.Types.Hash.{Hash, hash_size}
use peerdns.Types.Address.{is_zero}
use peerdns.Types.Transaction.{Transaction}
use peerdns.Types.Block.{Block}
use peerdns.Ledger.State.{State, get_balance, get_nonce}

-- The errors of `validateTransaction`. That a fee is below 0 cannot be.
pub data InvalidTransaction : Type 0 where
  zero_sender zero_amount insufficient_balance invalid_nonce : InvalidTransaction

-- The balance and the nonce, outside the genesis block.
unfoldable pub validate_spending : Transaction → State → Option InvalidTransaction
validate_spending tx s =
    if ltb (get_balance tx.sender s) ((tx.amount + tx.fee) % 2 ^ 64)
    then some insufficient_balance
    else if not (tx.nonce == ((get_nonce tx.sender s + 1) % 2 ^ 64))
    then some invalid_nonce
    else none

-- `validateTransaction`, with `none` for no error.
unfoldable pub validate_transaction : Transaction → Bool → State → Option InvalidTransaction
validate_transaction tx is_genesis_block s =
    if is_zero tx.sender
    then some zero_sender
    else if leb tx.amount 0
    then some zero_amount
    else if not is_genesis_block
    then validate_spending tx s
    else none

-- The loop over a block's transactions in `ValidateBlock`: the state is that before the block.
unfoldable pub validate_transactions : List Transaction → Bool → State → Option InvalidTransaction
validate_transactions [] is_genesis_block s = none
validate_transactions (tx ∷ txs) is_genesis_block s =
    elim (validate_transaction tx is_genesis_block s) [
      | none ↦ validate_transactions txs is_genesis_block s
      | some e ↦ some e
    ]

-- `blockHashMeetsTarget`, for two hashes.
unfoldable pub block_hash_meets_target : Hash → Hash → Bool
block_hash_meets_target [] target = true
block_hash_meets_target (h ∷ hash) [] = true
block_hash_meets_target (h ∷ hash) (t ∷ target) =
    let rest = block_hash_meets_target hash target in
    if ltb h t then true else if ltb t h then false else rest

unfoldable pub filled : ℕ → Hash
filled zero = []
filled (suc n) = 0xff ∷ filled n

-- `CalculateTarget`, a placeholder that does not read the difficulty.
unfoldable pub calculate_target : ℕ → Hash
calculate_target difficulty = filled hash_size

-- `validateConsensusRules`, with `true` for no error.
unfoldable pub validate_consensus_rules : Block → Bool
validate_consensus_rules b = block_hash_meets_target b.hash (calculate_target b.difficulty)
