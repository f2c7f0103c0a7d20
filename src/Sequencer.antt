-- ===== src/Sequencer.antt =====
-- pkg/sequencer: the block producer, and the sequencer that calls it at each tick.
pub mod States
pub mod Forging
pub mod Pulled
pub mod Blocked
pub mod Tests
use peerdns.Prelude.{ℕ, ◌+◌, ◌%◌, ◌^◌, Option, none, some, List, [], ◌∷◌, Bytes}
use peerdns.Prelude.Int.{ℤ, pos}
use peerdns.Prelude.Map.{Map}
use peerdns.Types.Hash.{Hash}
use peerdns.Types.Transaction.{Transaction}
use peerdns.Types.Block.{Block, new_block}
use peerdns.TxPool.{TxPool, get_transactions, remove_transaction}
use peerdns.Ledger.Graph.{Graph}
use peerdns.Ledger.Blocks.{get_latest_block}
use peerdns.Chain.{Blockchain, ChainError, add_block}
use peerdns.Sequencer.States.{
  StateManager, new_state_manager, Stage, initializing, starting, started, produced, service_failed,
  stopping, stopped, set_state, sequencer_state_type, producer_state_type,
}

-- The errors of `ForgeBlock`.
pub data ForgeError : Type 0 where
  no_latest_block no_new_block : ForgeError
  chain_refused : ChainError → ForgeError

-- `BlockProducer`
pub record BlockProducer (g : Graph) : Type 0 where
  pub tx_pool : TxPool
  pub blockchain : Blockchain g
  pub states : StateManager

-- `Sequencer`: its state manager is not that of its producer. The ticker and the context are left
-- to `tick` and `shut_down`.
pub record Sequencer (g : Graph) : Type 0 where
  pub own_states : StateManager
  pub producer : BlockProducer g

-- The loop that removes the transactions of the new block.
unfoldable pub remove_all : List Transaction → TxPool → TxPool
remove_all [] tp = tp
remove_all (tx ∷ txs) tp = remove_all txs (remove_transaction tx.id tp)

-- The new block on top of the latest one, at a time of the clock.
unfoldable pub assemble : (Bytes → Hash) → ℤ → List Transaction → Block → Option Block
assemble sha256 created txs latest =
    new_block sha256 created ((latest.index + 1) % 2 ^ 64) latest.hash txs latest.validator_id
      latest.difficulty

-- `bp.txPool.GetTransactions(100)`, with the pool's transactions in the order in which this call
-- visits them: with a positive number it does not panic. Any way of sorting equal nonces is the
-- stable one for some order.
unfoldable pub pulled : Map Transaction → TxPool → List Transaction
pulled order tp = elim (get_transactions (pos 100) (record tp { transactions = order })) [
  | none ↦ []
  | some txs ↦ txs
]

module _ (g : Graph) where
  unfoldable pub set_producer_state : Stage → BlockProducer g → BlockProducer g
  set_producer_state state bp = record bp { states = set_state producer_state_type state bp.states }

  -- Set the state to Failed and return.
  abbrev pub give_up : Option ForgeError → BlockProducer g → BlockProducer g × Option ForgeError
  give_up error bp = (set_producer_state service_failed bp, error)

  -- What `ForgeBlock` does with the new block, at a later time of the clock.
  unfoldable pub submit :
      (Bytes → Hash)
      → ℤ
      → List Transaction
      → Block
      → BlockProducer g
      → BlockProducer g × Option ForgeError
  submit sha256 now txs b bp =
      let result = add_block g sha256 now b bp.blockchain in
      let next = record bp { blockchain = result.0 } in
      elim result.1 [
        | none ↦ (
          set_producer_state produced (record next { tx_pool = remove_all txs next.tx_pool }),
          none,
        )
        | some e ↦ give_up (some (chain_refused e)) next
      ]

  -- With at least one transaction.
  unfoldable pub forge_from :
      (Bytes → Hash)
      → ℤ
      → ℤ
      → List Transaction
      → BlockProducer g
      → BlockProducer g × Option ForgeError
  forge_from sha256 created now txs bp = elim (get_latest_block g bp.blockchain.ledger) [
    | none ↦ give_up (some no_latest_block) bp
    | some latest ↦ elim (assemble sha256 created txs latest) [
      | none ↦ give_up (some no_new_block) bp
      | some b ↦ submit sha256 now txs b bp
    ]
  ]

  unfoldable pub forge_pulled :
      (Bytes → Hash)
      → ℤ
      → ℤ
      → List Transaction
      → BlockProducer g
      → BlockProducer g × Option ForgeError
  forge_pulled sha256 created now [] bp = give_up none bp
  forge_pulled sha256 created now (tx ∷ txs) bp = forge_from sha256 created now (tx ∷ txs) bp

  -- `ForgeBlock`, which visits the pool in some order, and reads the clock when it makes the block
  -- and when the chain checks it.
  unfoldable pub forge_block :
      (Bytes → Hash)
      → Map Transaction
      → ℤ
      → ℤ
      → BlockProducer g
      → BlockProducer g × Option ForgeError
  forge_block sha256 order created now bp =
      forge_pulled sha256 created now (pulled order bp.tx_pool) (set_producer_state started bp)

  -- `NewSequencer`
  unfoldable pub new_sequencer : BlockProducer g → Sequencer g
  new_sequencer bp = record { own_states = new_state_manager; producer = bp }

  unfoldable pub set_sequencer_state : Bytes → Stage → Sequencer g → Sequencer g
  set_sequencer_state t state s = record s { own_states = set_state t state s.own_states }

  -- `Start`, up to where the goroutine of `produce` runs.
  unfoldable pub start : Sequencer g → Sequencer g
  start s = set_sequencer_state sequencer_state_type started (
      set_sequencer_state producer_state_type initializing
        (set_sequencer_state sequencer_state_type initializing s))

  -- A tick of `produce`: the error of `ForgeBlock` is logged only.
  unfoldable pub tick : (Bytes → Hash) → Map Transaction → ℤ → ℤ → Sequencer g → Sequencer g
  tick sha256 order created now s =
      let next = set_sequencer_state producer_state_type starting s in
      record next { producer = (forge_block sha256 order created now next.producer).0 }

  -- The end of `produce`, after `Stop` cancelled its context.
  unfoldable pub shut_down : Sequencer g → Sequencer g
  shut_down s =
      set_sequencer_state sequencer_state_type stopped
        (set_sequencer_state sequencer_state_type stopping s)
