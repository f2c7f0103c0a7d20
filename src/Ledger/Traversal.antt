-- ===== src/Ledger/Traversal.antt =====
-- pkg/ledger/traversal.go and transaction.go: the blocks and the transactions that the ledger lists.
-- A block map is an association list, whose order stands for one in which `range` may visit it.
pub mod Listed
use peerdns.Prelude.{
  ◌≡◌, Bool, true, false, Option, none, some, List, [], ◌∷◌, ◌++◌, if◌then◌else◌, beq, ◌||◌,
}
use peerdns.Prelude.Map.{Map, insert, has, values}
use peerdns.Types.Hash.{Hash}
use peerdns.Types.Transaction.{Transaction}
use peerdns.Types.Block.{Block}
use peerdns.Ledger.Graph.{Graph}
use peerdns.Ledger.Blocks.{Ledger, get_block}

-- The inner loop of `IterateTransactions`, where `fn` has a state of its own.
unfoldable pub iterate {ℓ κ} :
    {S : Type ℓ} {E : Type κ}
    → (Transaction → S → S × Option E)
    → List Transaction
    → S
    → S × Option E
iterate fn [] s = (s, none)
iterate fn (tx ∷ txs) s =
    let result = fn tx s in
    elim result.1 [ none ↦ iterate fn txs result.0 | some e ↦ (result.0, some e) ]

-- The outer loop, over the blocks.
unfoldable pub iterate_blocks {ℓ κ} :
    {S : Type ℓ} {E : Type κ} → (Transaction → S → S × Option E) → List Block → S → S × Option E
iterate_blocks fn [] s = (s, none)
iterate_blocks fn (b ∷ blocks) s =
    let result = iterate fn b.transactions s in
    elim result.1 [ none ↦ iterate_blocks fn blocks result.0 | some e ↦ (result.0, some e) ]

-- A transaction of a block by its identifier.
unfoldable pub find_transaction : Hash → List Transaction → Option Transaction
find_transaction id [] = none
find_transaction id (tx ∷ txs) =
    let rest = find_transaction id txs in if beq tx.id id then some tx else rest

unfoldable pub find_in_blocks : Hash → List Block → Option Transaction
find_in_blocks id [] = none
find_in_blocks id (b ∷ blocks) = elim (find_transaction id b.transactions) [
  | none ↦ find_in_blocks id blocks
  | some tx ↦ some tx
]

-- `visited[u]`
unfoldable pub visited : Hash → List Hash → Bool
visited u [] = false
visited u (h ∷ hs) = beq h u || visited u hs

module _ (g : Graph) where
  -- The loop over the vertices.
  unfoldable pub collect_vertices : Ledger g → Map (List Hash) → Map Block → Map Block
  collect_vertices l [] blocks = blocks
  collect_vertices l ((h, targets) ∷ m) blocks =
      collect_vertices l m (elim (get_block g h l) [ none ↦ blocks | some b ↦ insert h b blocks ])

  -- The loop over the edges of a vertex.
  unfoldable pub collect_targets : Ledger g → List Hash → Map Block → Map Block
  collect_targets l [] blocks = blocks
  collect_targets l (t ∷ targets) blocks = collect_targets l targets (
      if has t blocks
      then blocks
      else elim (get_block g t l) [ none ↦ blocks | some b ↦ insert t b blocks ])

  unfoldable pub collect_edges : Ledger g → Map (List Hash) → Map Block → Map Block
  collect_edges l [] blocks = blocks
  collect_edges l ((h, targets) ∷ m) blocks = collect_edges l m (collect_targets l targets blocks)

  -- The map of blocks that `ListBlocks` builds.
  unfoldable pub blocks_map : Ledger g → Option (Map Block)
  blocks_map l = elim (g.adjacency_map l.graph) [
    | none ↦ none
    | some m ↦ some (collect_edges l m (collect_vertices l m []))
  ]

  -- `ListBlocks`
  unfoldable pub list_blocks : Ledger g → Option (List Block)
  list_blocks l = elim (blocks_map l) [ none ↦ none | some blocks ↦ some (values blocks) ]

  -- The visits of `BFS` in `TraverseSuccessors`, up to the first vertex that has no block.
  unfoldable pub visit : Ledger g → Hash → List Hash → List Hash → List Block
  visit l hash seen [] = []
  visit l hash seen (u ∷ order) =
      let skip = visit l hash seen order in
      let rest = visit l hash (u ∷ seen) order in
      if beq u hash || visited u seen
      then skip
      else elim (get_block g u l) [ none ↦ [] | some b ↦ b ∷ rest ]

  -- `TraverseSuccessors`
  unfoldable pub traverse_successors : Hash → Ledger g → Option (List Block)
  traverse_successors hash l = elim (g.bfs l.graph hash) [
    | none ↦ none
    | some order ↦ some (visit l hash [] order)
  ]

  -- `GetTransaction`: no transaction is an error.
  unfoldable pub get_transaction : Hash → Ledger g → Option Transaction
  get_transaction id l = elim (list_blocks l) [
    | none ↦ none
    | some blocks ↦ find_in_blocks id blocks
  ]

  -- `IterateTransactions`: `none` where the blocks cannot be listed, else the state that the calls
  -- of `fn` leave and the error of the last call.
  unfoldable pub iterate_transactions {ℓ κ} :
      {S : Type ℓ} {E : Type κ}
      → (Transaction → S → S × Option E)
      → Ledger g
      → S
      → Option (S × Option E)
  iterate_transactions fn l s = elim (list_blocks l) [
    | none ↦ none
    | some blocks ↦ some (iterate_blocks fn blocks s)
  ]

  -- The function that `SeekTransactions` passes on.
  unfoldable pub gather :
      (Transaction → Bool) → Transaction → List Transaction → List Transaction × Option Bool
  gather predicate tx matched = (if predicate tx then matched ++ tx ∷ [] else matched, none)

  -- `SeekTransactions`
  unfoldable pub seek_transactions : (Transaction → Bool) → Ledger g → Option (List Transaction)
  seek_transactions predicate l = elim (iterate_transactions (gather predicate) l []) [
    | none ↦ none
    | some (matched, none) ↦ some matched
    | some (matched, some e) ↦ none
  ]
