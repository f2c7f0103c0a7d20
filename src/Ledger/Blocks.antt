-- ===== src/Ledger/Blocks.antt =====
-- pkg/ledger/block.go, ledger.go and chain.go: the blocks of the ledger, in their graph.
pub mod Stored
pub mod Money
pub mod Tests
use peerdns.Prelude.{
  ◌≡◌, Bool, true, false, Option, none, some, List, [], ◌∷◌, ltb, ◌==◌, if◌then◌else◌, is_some, ℕ,
}
use peerdns.Prelude.Int.{to_int64}
use peerdns.Prelude.Map.{Map}
use peerdns.Types.Hash.{Hash, is_zero_hash}
use peerdns.Types.Transaction.{Transaction}
use peerdns.Types.Block.{Block, serialize}
use peerdns.Ledger.State.{State, new_state, update_balance, apply_block}
use peerdns.Ledger.Graph.{Graph, GraphError, already_exists, other}

pub data AddBlockError : Type 0 where
  add_vertex_failed serialize_failed store_failed cycle_check_failed : AddBlockError
  creates_cycle add_edge_failed : AddBlockError

-- `err != nil && !errors.Is(err, ...AlreadyExists)`
unfoldable pub fails : Option GraphError → Bool
fails none = false
fails (some already_exists) = false
fails (some other) = true

-- What the genesis block allocates: its transactions take nothing from their senders.
unfoldable pub allocate : List Transaction → State → State
allocate [] s = s
allocate (tx ∷ txs) s = allocate txs (update_balance tx.recipient (to_int64 tx.amount) s)

-- The graph with the database, and the balances.
pub record Ledger (g : Graph) : Type 0 where
  pub graph : g.Contents
  pub state : State

module _ (g : Graph) where
  unfoldable pub new_ledger : g.Contents → Ledger g
  new_ledger c = record { graph = c; state = new_state }

  -- A ledger and the error of the call that left it, if any.
  abbrev pub Outcome : Type 0
  Outcome = Ledger g × Option AddBlockError

  -- The genesis block in the database, and its allocations.
  unfoldable pub store_genesis : Block → Ledger g → Outcome
  store_genesis b l = elim (serialize b) [
    | none ↦ (l, some serialize_failed)
    | some value ↦ elim (g.set l.graph b.hash value) [
      | none ↦ (l, some store_failed)
      | some c ↦ (record { graph = c; state = allocate b.transactions l.state }, none)
    ]
  ]

  -- The branch of `AddBlock` for a genesis block.
  unfoldable pub add_genesis : Block → Ledger g → Outcome
  add_genesis b l =
      let added = g.add_vertex l.graph b in
      let next = record l { graph = added.0 } in
      if fails added.1 then (next, some add_vertex_failed) else store_genesis b next

  -- The edge from the predecessor, unless it closes a cycle.
  unfoldable pub link : Block → Ledger g → Outcome
  link b l = elim (g.creates_cycle l.graph b.previous_hash b.hash) [
    | none ↦ (l, some cycle_check_failed)
    | some true ↦ (l, some creates_cycle)
    | some false ↦
        let added = g.add_edge l.graph b.previous_hash b.hash in
        (record l { graph = added.0 }, if fails added.1 then some add_edge_failed else none)
  ]

  -- The other branch: the balances change first.
  unfoldable pub add_successor : Block → Ledger g → Outcome
  add_successor b l =
      let added = g.add_vertex l.graph b in
      let next : Ledger g = record { graph = added.0; state = apply_block b l.state } in
      if fails added.1 then (next, some add_vertex_failed) else link b next

  -- `AddBlock`
  unfoldable pub add_block : Block → Ledger g → Outcome
  add_block b l = if is_zero_hash b.previous_hash then add_genesis b l else add_successor b l

  -- `GetBlock`
  unfoldable pub get_block : Hash → Ledger g → Option Block
  get_block hash l = g.vertex l.graph hash

  -- The inner loop of `GetBlockByIndex`.
  unfoldable pub target_with_index : ℕ → List Hash → Ledger g → Option Block
  target_with_index index [] l = none
  target_with_index index (t ∷ targets) l =
      let rest = target_with_index index targets l in
      elim (g.vertex l.graph t) [ none ↦ rest | some b ↦ if b.index == index then some b else rest ]

  unfoldable pub edge_with_index : ℕ → Map (List Hash) → Ledger g → Option Block
  edge_with_index index [] l = none
  edge_with_index index ((h, targets) ∷ m) l = elim (target_with_index index targets l) [
    | none ↦ edge_with_index index m l
    | some b ↦ some b
  ]

  -- `GetBlockByIndex`
  unfoldable pub get_block_by_index : ℕ → Ledger g → Option Block
  get_block_by_index index l = elim (g.adjacency_map l.graph) [
    | none ↦ none
    | some m ↦ edge_with_index index m l
  ]

  -- The first vertex that has no successors.
  unfoldable pub first_without_successors : Map (List Hash) → Ledger g → Option Block
  first_without_successors [] l = none
  first_without_successors ((h, []) ∷ m) l = g.vertex l.graph h
  first_without_successors ((h, t ∷ targets) ∷ m) l = first_without_successors m l

  -- `GetLatestBlock`: no block is an error.
  unfoldable pub get_latest_block : Ledger g → Option Block
  get_latest_block l = elim (g.adjacency_map l.graph) [
    | none ↦ none
    | some m ↦ first_without_successors m l
  ]

  -- `ValidateChain`: `false` comes with an error.
  unfoldable pub validate_chain : Ledger g → Bool
  validate_chain l = is_some (g.topological_sort l.graph)
