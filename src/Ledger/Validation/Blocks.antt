-- ===== src/Ledger/Validation/Blocks.antt =====
-- pkg/ledger/validation.go: the checks of a block. pkg/chain makes them once more, with another
-- bound on the clock, so the checks take what they read of the ledger.
pub mod Accepted
use peerdns.Prelude.{
  ℕ, ◌+◌, ◌*◌, ◌%◌, ◌^◌, ◌≡◌, ◌↔◌, ◌<◌, true, false, not, Option, none, some, arith, ltb, ◌==◌,
  ◌&&◌, if◌then◌else◌, Bytes, beq, beq_iff, Bool-cases, ◌∙◌, refl, inl, inr,
}
use peerdns.Prelude.Int.{ℤ, pos, ltb_ℤ, ◌+ℤ◌}
use peerdns.Types.Hash.{Hash, zero_hash}
use peerdns.Types.Block.{Block, compute_hash, compute_merkle_root}
use peerdns.Ledger.State.{State, wrap_int64}
use peerdns.Ledger.Graph.{Graph}
use peerdns.Ledger.Blocks.{Ledger, get_block}
use peerdns.Ledger.Validation.{InvalidTransaction, validate_transactions, validate_consensus_rules}

-- `MaxTimeDrift` of pkg/ledger.
abbrev pub max_time_drift : ℕ
max_time_drift = 15 * 60

pub data InvalidBlock : Type 0 where
  genesis_previous_hash previous_not_found not_sequential invalid_hash : InvalidBlock
  invalid_merkle_root too_far_in_future before_previous consensus_rules : InvalidBlock
  invalid_transaction : InvalidTransaction → InvalidBlock

-- A check and the ones behind it, of which the first error is returned.
abbrev pub first : Option InvalidBlock → Option InvalidBlock → Option InvalidBlock
first none later = later
first (some e) later = some e

-- 1. The index, against the block with the previous hash.
unfoldable pub check_index : Block → Option Block → Option InvalidBlock
check_index b previous =
    if (b.index == 0) && not (beq b.previous_hash zero_hash)
    then some genesis_previous_hash
    else if ltb 0 b.index
    then elim previous [
      | none ↦ some previous_not_found
      | some p ↦ if b.index == ((p.index + 1) % 2 ^ 64) then none else some not_sequential
    ]
    else none

-- 2. and 3. The hash and the Merkle root.
unfoldable pub check_hashes : (Bytes → Hash) → Block → Option InvalidBlock
check_hashes sha256 b =
    if not (beq b.hash (compute_hash sha256 b))
    then some invalid_hash
    else if not (beq b.merkle_root (compute_merkle_root sha256 b.transactions))
    then some invalid_merkle_root
    else none

-- 4. The timestamp, at a time of the clock.
unfoldable pub check_timestamp : ℕ → ℤ → Block → Option Block → Option InvalidBlock
check_timestamp drift now b previous =
    if ltb_ℤ (wrap_int64 (now +ℤ pos drift)) b.timestamp
    then some too_far_in_future
    else if ltb 0 b.index
    then elim previous [
      | none ↦ some previous_not_found
      | some p ↦ if ltb_ℤ b.timestamp p.timestamp then some before_previous else none
    ]
    else none

-- 6. The transactions, each in the state before the block.
unfoldable pub check_transactions : Block → State → Option InvalidBlock
check_transactions b s = elim (validate_transactions b.transactions (b.index == 0) s) [
  | none ↦ none
  | some e ↦ some (invalid_transaction e)
]

-- `ValidateBlock`, with `none` for no error.
unfoldable pub validate_block :
    (g : Graph) → (Bytes → Hash) → ℤ → Block → Ledger g → Option InvalidBlock
validate_block g sha256 now b l =
    let previous = get_block g b.previous_hash l in
    first (check_index b previous) (
      first (check_hashes sha256 b) (
        first (check_timestamp max_time_drift now b previous) (
          first (check_transactions b l.state)
            (if validate_consensus_rules b then none else some consensus_rules))))
