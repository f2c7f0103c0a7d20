-- ===== src/Sequencer/Tests.antt =====
-- A producer over a short chain, and instances of the theorems (pkg/sequencer).
use peerdns.Prelude.{
  ℕ, ◌+◌, ◌^◌, ◌<◌, ◌≡◌, ◌↔◌, refl, true, false, Bytes, none, some, [], ◌∷◌, ◌++◌, arith, beq,
  beq_iff, ap, List, some_equal,
}
use peerdns.Prelude.Int.{pos, ◌+ℤ◌}
use peerdns.Prelude.Map.{Map, lookup}
use peerdns.Wire.{replicate_zero, le_bytes}
use peerdns.Types.Hash.{zero_hash}
use peerdns.Types.Transaction.{Transaction}
use peerdns.Types.Block.{
  Block, new_block, compute_hash, hash_contents, compute_merkle_root, levels, next_level, root_of,
}
use peerdns.TxPool.{get_transactions, first_of, sort_transactions_by_nonce_asc, sort_by, insert_by}
use peerdns.Ledger.Validation.{validate_transactions}
use peerdns.Ledger.Graph.Memory.{in_memory}
use peerdns.Ledger.Blocks.{get_latest_block, first_without_successors, get_block}
use peerdns.Ledger.Blocks.Tests.{toy_hash, block_zero}
use peerdns.Ledger.Graph.Memory.{targets_of}
use peerdns.Chain.{validate_block}
use peerdns.Chain.Tests.{start}
use peerdns.Sequencer.{Sequencer, assemble, pulled}
use peerdns.Sequencer.Forging.{validate_block-assemble_iff}
use peerdns.Sequencer.Pulled.{Reordered}
use peerdns.Sequencer.Blocked.{Tick, ticks, ticks-blocked}

abbrev payment : ℕ → Transaction
payment nonce = record {
  id = nonce ∷ replicate_zero 31;
  sender = 1 ∷ replicate_zero 19;
  recipient = 2 ∷ replicate_zero 19;
  amount = 1;
  fee = 0;
  nonce = nonce;
  timestamp = pos 0;
  signature = [];
  signature_type = [];
  payload = [];
}

-- Two payments of one sender, with consecutive nonces.
abbrev sequencer : Sequencer in_memory
sequencer = record {
  own_states = record { service_states = []; wait_chans = []; closed = []; made = 0 };
  producer = record {
    tx_pool = record {
      transactions = ((payment 1).id, payment 1) ∷ ((payment 2).id, payment 2) ∷ [];
      max_size = pos 10;
      tx_expiry = pos 10;
      validate = λ tx. true;
      cleanup_interval = pos 10;
    };
    blockchain = start;
    states = record { service_states = []; wait_chans = []; closed = []; made = 0 };
  };
}

program : Unit {0}
unfolding pulled get_transactions first_of sort_transactions_by_nonce_asc sort_by insert_by
    get_latest_block first_without_successors targets_of get_block lookup beq replicate_zero
program = tt

latest-small :
    (latest : Block)
    → get_latest_block in_memory start.ledger ≡ some latest
    → latest.index + 1 < 2 ^ 64
unfolding program
latest-small latest h =
    let zero_index : 0 ≡ latest.index = ap (λ b. b.index) (some_equal {a = block_zero} h) in
    omega (arith, zero_index)

abbrev pool : Map Transaction
pool = sequencer.producer.tx_pool.transactions

abbrev turned : Map Transaction
turned = ((payment 2).id, payment 2) ∷ ((payment 1).id, payment 1) ∷ []

-- The second tick visits the pool in the other order.
abbrev two_ticks : List (Tick in_memory)
two_ticks = (pool, (pos 10, pos 11)) ∷ (turned, (pos 20, pos 21)) ∷ []

lookup-turn :
    (k i j : Bytes) (v w : Transaction)
    → beq i j ≡ false
    → lookup k ((i, v) ∷ (j, w) ∷ []) ≡ lookup k ((j, w) ∷ (i, v) ∷ [])
unfolding lookup
lookup-turn k i j v w ne = ground (arith, beq_iff i k, beq_iff j k, beq_iff i j)

turned-Reordered : Reordered turned pool
unfolding lookup replicate_zero beq
turned-Reordered = (
  (refl, (refl, tt)),
  λ k. lookup-turn k (payment 2).id (payment 1).id (payment 2) (payment 1) refl,
)

pool-Reordered : Reordered pool pool
unfolding lookup replicate_zero beq
pool-Reordered = ((refl, (refl, tt)), λ k. refl)

ticks-blocked_example :
    ((ticks in_memory toy_hash two_ticks sequencer).producer.tx_pool ≡ sequencer.producer.tx_pool)
    × ((ticks in_memory toy_hash two_ticks sequencer).producer.blockchain
        ≡ sequencer.producer.blockchain)
unfolding program
ticks-blocked_example =
    ticks-blocked in_memory toy_hash two_ticks (payment 1).id (payment 2).id (payment 1) (payment 2)
      sequencer (pool-Reordered, (turned-Reordered, tt)) (omega arith) refl refl refl
      (λ e. absurd (omega (arith, e))) latest-small

-- The block with the first of them, on top of the chain's.
abbrev forged : Block
forged = record block_zero {
  index = 1;
  timestamp = pos 10;
  previous_hash = block_zero.hash;
  hash = (1 ∷ replicate_zero 7) ++ ((10 ∷ replicate_zero 15) ++ (1 ∷ replicate_zero 7));
  merkle_root = (payment 1).id;
  transactions = payment 1 ∷ [];
}

validate_block-assemble_iff_example :
    (validate_block in_memory toy_hash (pos 11) forged start ≡ none)
    ↔ (validate_transactions (payment 1 ∷ []) false start.ledger.state ≡ none)
unfolding program assemble new_block compute_hash hash_contents compute_merkle_root levels
    next_level root_of zero_hash ◌+ℤ◌ le_bytes
validate_block-assemble_iff_example =
    validate_block-assemble_iff in_memory toy_hash (pos 10) (pos 11) (payment 1 ∷ []) block_zero
      forged start refl refl (omega arith) refl refl
