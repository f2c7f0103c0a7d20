-- ===== src/Ledger/Blocks/Tests.antt =====
-- Two blocks in memory, and instances of the theorems (pkg/ledger).
use peerdns.Prelude.{
  ℕ, ◌+◌, ◌≡◌, ◌↔◌, ◌⊎◌, refl, true, none, some, [], ◌∷◌, ◌++◌, arith, Bytes, take, beq,
}
use peerdns.Prelude.Int.{pos}
use peerdns.Prelude.Map.{Map, lookup, insert, values, Distinct}
use peerdns.Wire.{replicate_zero}
use peerdns.Types.Hash.{Hash, is_zero_hash}
use peerdns.Types.Transaction.{Transaction}
use peerdns.Types.Block.{Block, serialize, put_transactions}
use peerdns.Types.Transaction
use peerdns.Ledger.State.{apply_block}
use peerdns.Ledger.State.Conservation.{total, sum_of}
use peerdns.Ledger.Graph.Memory.{in_memory, in_memory-IsGraph, targets_of, any_equal, search_from}
use peerdns.Ledger.Blocks.{
  Ledger, add_vertex_failed, cycle_check_failed, add_block, add_genesis, store_genesis,
  add_successor, link, fails, get_block,
}
use peerdns.Ledger.Blocks.Stored.{add_block-apply_block}
use peerdns.Ledger.Blocks.Money.{total-add_block}
use peerdns.Ledger.Traversal.{
  list_blocks, blocks_map, collect_edges, collect_targets, collect_vertices,
}
use peerdns.Ledger.Traversal.Listed.{Complete, list_blocks-Complete}
use peerdns.Ledger.Validation.{validate_consensus_rules}
use peerdns.Ledger.Validation.Blocks.{max_time_drift, validate_block}
use peerdns.Ledger.Validation.Blocks.Accepted.{Sound, validate_block_iff}

-- A hash of the fixed size, good enough for two blocks.
abbrev pub toy_hash : Bytes → Hash
toy_hash bytes = take 32 bytes

abbrev pub block_zero : Block
block_zero = record {
  index = 0;
  timestamp = pos 1;
  previous_hash = replicate_zero 32;
  hash = 0 ∷ 0 ∷ 0 ∷ 0 ∷ 0 ∷ 0 ∷ 0 ∷ 0 ∷ 1 ∷ replicate_zero 23;
  merkle_root = replicate_zero 32;
  signature = [];
  signature_type = [];
  validator_id = [];
  transactions = [];
  difficulty = 1;
  version = 1;
  finalized_by = [];
}

abbrev pub block_one : Block
block_one = record block_zero {
  index = 1;
  timestamp = pos 2;
  previous_hash = block_zero.hash;
  hash = (1 ∷ replicate_zero 7) ++ ((2 ∷ replicate_zero 15) ++ (1 ∷ replicate_zero 7));
}

abbrev pub ledger_zero : Ledger in_memory
ledger_zero = record {
  graph = record { blocks = (block_zero.hash, block_zero) ∷ []; edges = []; entries = [] };
  state = record { balances = []; nonces = [] };
}

abbrev first_byte : Bytes → ℕ
first_byte [] = 0
first_byte (b ∷ bs) = b

program : Unit {0}
unfolding replicate_zero lookup insert beq add_block add_genesis store_genesis add_successor link
    fails is_zero_hash get_block targets_of any_equal search_from
program = tt

-- A block whose predecessor is not there.
abbrev orphan : Block
orphan = record block_one { previous_hash = 9 ∷ replicate_zero 31 }

add_block-apply_block_example :
    ((add_block in_memory orphan ledger_zero).0.state ≡ apply_block orphan ledger_zero.state)
    × ((orphan.hash ≡ orphan.previous_hash)
        ⊎ (((p : Block) × (get_block in_memory orphan.previous_hash ledger_zero ≡ some p))
            ⊎ (((add_block in_memory orphan ledger_zero).1 ≡ some add_vertex_failed)
                ⊎ ((add_block in_memory orphan ledger_zero).1 ≡ some cycle_check_failed))))
unfolding program
add_block-apply_block_example =
    add_block-apply_block in_memory in_memory-IsGraph orphan ledger_zero refl

-- A second genesis block.
abbrev gift : Transaction
gift = record {
  id = 5 ∷ replicate_zero 31;
  sender = replicate_zero 20;
  recipient = 2 ∷ replicate_zero 19;
  amount = 7;
  fee = 0;
  nonce = 0;
  timestamp = pos 0;
  signature = [];
  signature_type = [];
  payload = [];
}

abbrev second_genesis : Block
second_genesis = record block_zero { hash = 7 ∷ replicate_zero 31; transactions = gift ∷ [] }

accepted : (add_block in_memory second_genesis ledger_zero).1 ≡ none
unfolding program serialize put_transactions Transaction.serialize
accepted = refl

total-add_block_example :
    total (add_block in_memory second_genesis ledger_zero).0.state ≡ total ledger_zero.state + 7
unfolding program sum_of
total-add_block_example =
    total-add_block in_memory second_genesis ledger_zero accepted (omega arith)

validate_block_iff_example :
    (validate_block in_memory toy_hash (pos 10) block_one ledger_zero ≡ none) ↔ (
      Sound toy_hash max_time_drift
        (pos 10)
        block_one
        (get_block in_memory block_one.previous_hash ledger_zero)
        ledger_zero.state
      × (validate_consensus_rules block_one ≡ true))
validate_block_iff_example = validate_block_iff in_memory toy_hash (pos 10) block_one ledger_zero

list_blocks-Complete_example :
    (m : Map Block) × (values m ≡ block_zero ∷ []) × Distinct m × Complete in_memory ledger_zero m
unfolding program list_blocks blocks_map collect_edges collect_targets collect_vertices
list_blocks-Complete_example =
    list_blocks-Complete in_memory in_memory-IsGraph ledger_zero (block_zero ∷ []) refl
