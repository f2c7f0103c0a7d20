-- ===== src/Chain/Tests.antt =====
-- A short chain in memory, and instances of the theorems (pkg/chain).
use mathlib.Core.Path.{subst}
use peerdns.Prelude.{◌≡◌, ◌≢◌, refl, inl, none, some, [], ◌∷◌, ◌++◌, arith, Bytes, beq, codes}
use peerdns.Prelude.Int.{ℤ, pos, ◌+ℤ◌}
use peerdns.Prelude.Map.{lookup, insert}
use peerdns.Wire.{replicate_zero, le_bytes}
use peerdns.Types.Hash.{zero_hash, is_zero_hash}
use peerdns.Types.Address.{
  zero_address, from_hex, trim_prefix, decode_address, unhex, join_digits, unhex_digit,
}
use peerdns.Types.Block.{
  Block, compute_hash, hash_contents, compute_merkle_root, levels, next_level, root_of, new_block,
}
use peerdns.Genesis.{Genesis, create_genesis_block, allocations, allocation}
use peerdns.Ledger.State.{apply_block, apply_transactions}
use peerdns.Ledger.Graph.Memory.{in_memory, in_memory-IsGraph, targets_of, any_equal, search_from}
use peerdns.Ledger.Blocks
use peerdns.Ledger.Blocks.Tests.{toy_hash, block_zero, block_one, ledger_zero}
use peerdns.Ledger.Blocks.{Ledger, get_block, get_latest_block, first_without_successors}
use peerdns.Chain.{
  Blockchain, add_block, append_block, validate_block, new_blockchain, handle_incoming_block,
  extend_head,
}
use peerdns.Chain.Refusal.{validate_block-create_genesis_block}
use peerdns.Ledger.Validation.{validate_transactions}
use peerdns.Ledger.Validation.Blocks.{
  check_index, check_hashes, check_timestamp, check_transactions,
}
use peerdns.Chain.Linked.{AllLinked, Linked, add_block-handle_incoming_block-AllLinked}
use peerdns.Chain.Growth.{Calls, no_call, added, new_blockchain-Calls}

abbrev pub start : Blockchain in_memory
start = record { ledger = ledger_zero; head = some block_zero; genesis_block = some block_zero }

abbrev now : ℤ
now = pos 10

program : Unit {0}
unfolding compute_hash hash_contents le_bytes replicate_zero lookup insert beq Blocks.add_block
    Blocks.add_genesis Blocks.add_successor Blocks.link Blocks.fails is_zero_hash get_block
    get_latest_block first_without_successors targets_of any_equal search_from add_block
    append_block validate_block check_index check_hashes check_timestamp check_transactions
    validate_transactions compute_merkle_root levels next_level root_of zero_address
    create_genesis_block allocations allocation new_block from_hex trim_prefix decode_address unhex
    join_digits unhex_digit handle_incoming_block extend_head zero_hash apply_block
    apply_transactions ◌+ℤ◌
program = tt

start-AllLinked : AllLinked in_memory start.ledger.graph
unfolding lookup zero_hash replicate_zero
start-AllLinked h b found =
    let same : block_zero ≡ b = ground (arith, found) in
    subst (Linked in_memory start.ledger.graph) same (omega arith, inl (refl, refl))

abbrev after_one : Blockchain in_memory
after_one = (add_block in_memory toy_hash now block_one start).0

latest_is_one : get_latest_block in_memory after_one.ledger ≡ some block_one
unfolding program
latest_is_one = refl

abbrev account_one : Bytes
account_one = codes "0x1100000000000000000000000000000000000000"

abbrev config : Genesis
config = record {
  chain_id = 1;
  alloc = (account_one, codes "7") ∷ [];
  difficulty = 1;
  timestamp = pos 1;
  extra_data = [];
}

one_call : Calls in_memory toy_hash start after_one
unfolding program
one_call = added no_call now block_one refl (inl refl)

new_blockchain-Calls_example :
    (b : Block) × (b.previous_hash ≡ zero_hash)
    × (new_blockchain in_memory toy_hash (λ s. none) now 2 config after_one.ledger ≡ (
      record { ledger = after_one.ledger; head = some block_one; genesis_block = some b },
      none,
    ))
new_blockchain-Calls_example =
    new_blockchain-Calls in_memory in_memory-IsGraph toy_hash (λ s. none) now 2 config start
      after_one block_one start-AllLinked one_call latest_is_one (omega arith)

add_block-handle_incoming_block-AllLinked_example :
    AllLinked in_memory after_one.ledger.graph
    × AllLinked in_memory
        (handle_incoming_block in_memory toy_hash now block_one start).0.ledger.graph
unfolding program
add_block-handle_incoming_block-AllLinked_example =
    add_block-handle_incoming_block-AllLinked in_memory in_memory-IsGraph toy_hash now block_one
      start refl (inl refl) start-AllLinked

-- The genesis block of the configuration.
abbrev minted : Block
minted = record block_zero {
  timestamp = now;
  hash = replicate_zero 8 ++ (10 ∷ replicate_zero 23);
  merkle_root = toy_hash (codes "alloc-" ++ account_one);
  validator_id = replicate_zero 20;
  transactions =
      allocation toy_hash (replicate_zero 20) (pos 1) account_one (17 ∷ replicate_zero 19) 7 ∷ [];
}

validate_block-create_genesis_block_example :
    validate_block in_memory toy_hash (pos 11) minted start ≢ none
unfolding program
validate_block-create_genesis_block_example =
    validate_block-create_genesis_block in_memory toy_hash (λ s. some 7) now (pos 11) config minted
      start refl
