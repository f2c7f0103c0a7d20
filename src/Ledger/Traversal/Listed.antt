-- ===== src/Ledger/Traversal/Listed.antt =====
-- What the lists of blocks and of transactions hold (pkg/ledger/traversal.go and transaction.go).
use mathlib.Core.List.{append_assoc, append-nil}
use peerdns.Prelude.{
  ◌&&◌, ◌≡◌, refl, sym, ap, ◌∙◌, Bool, Option, none, some, List, [], ◌∷◌, ◌++◌, arith,
  if◌then◌else◌, beq_iff, is_some, keep, Bool-cases, Option-cases, inl, inr,
}
use peerdns.Prelude.Map.{Map, lookup, insert, has, values, lookup-insert, Distinct, insert-Distinct}
use peerdns.Types.Hash.{Hash}
use peerdns.Types.Transaction.{Transaction}
use peerdns.Types.Block.{Block}
use peerdns.Ledger.Graph.{Graph, IsGraph}
use peerdns.Ledger.Blocks.{Ledger, get_block}
use peerdns.Ledger.Traversal.{
  iterate, iterate_blocks, collect_vertices, collect_targets, collect_edges, blocks_map,
  list_blocks, iterate_transactions, gather, seek_transactions,
}

-- The transactions of all blocks, in the order of the blocks.
abbrev pub all_transactions : List Block → List Transaction
all_transactions [] = []
all_transactions (b ∷ blocks) = b.transactions ++ all_transactions blocks

keep-append :
    {A : Type 0} (p : A → Bool) (xs ys : List A) → keep p (xs ++ ys) ≡ keep p xs ++ keep p ys
unfolding keep
keep-append p [] ys = refl
keep-append p (x ∷ xs) ys = elim (Bool-cases (p x)) [
  | inl e ↦ rw (e, keep, keep-append p xs ys) refl
  | inr e ↦ rw (e, keep) (keep-append p xs ys)
]

-- The first element, if there is one.
abbrev pub head_of : List Transaction → Option Transaction
head_of [] = none
head_of (tx ∷ txs) = some tx

module _ (g : Graph) where
  iterate-gather :
      (p : Transaction → Bool) (txs s : List Transaction)
      → iterate (gather g p) txs s ≡ (s ++ keep p txs, none)
  unfolding iterate gather keep
  iterate-gather p [] s = ap (λ r. (r, none)) (sym (append-nil s))
  iterate-gather p (tx ∷ txs) s = elim (Bool-cases (p tx)) [
    | inl e ↦
        rw (e, keep, iterate-gather p txs (s ++ tx ∷ []), append_assoc s (tx ∷ []) (keep p txs))
          refl
    | inr e ↦ rw (e, keep) (iterate-gather p txs s)
  ]

  iterate_blocks-gather :
      (p : Transaction → Bool) (blocks : List Block) (s : List Transaction)
      → iterate_blocks (gather g p) blocks s ≡ (s ++ keep p (all_transactions blocks), none)
  unfolding iterate_blocks keep
  iterate_blocks-gather p [] s = ap (λ r. (r, none)) (sym (append-nil s))
  iterate_blocks-gather p (b ∷ blocks) s =
      let matched = keep p b.transactions in
      let later = keep p (all_transactions blocks) in
      let inner = iterate-gather p b.transactions s in
      let goal =
        ap (λ r. iterate_blocks (gather g p) blocks r.0) inner
        ∙ iterate_blocks-gather p blocks (s ++ matched) in
      rw (iterate_blocks, inner)
        (goal
          ∙ rw
              (
                append_assoc s matched later,
                sym (keep-append p b.transactions (all_transactions blocks)),
              )
              refl)

  -- `SeekTransactions` finds exactly the transactions of the listed blocks that match, in the order
  -- of the blocks, and fails where the blocks cannot be listed.
  pub seek_transactions-keep :
      (p : Transaction → Bool) (l : Ledger g)
      → seek_transactions g p l ≡ elim (list_blocks g l) [
        | none ↦ none
        | some blocks ↦ some (keep p (all_transactions blocks))
      ]
  unfolding seek_transactions iterate_transactions
  seek_transactions-keep p l = elim (Option-cases (list_blocks g l)) [
    | inl e ↦ rw (seek_transactions, iterate_transactions, e) refl
    | inr (blocks, e) ↦
        rw (seek_transactions, iterate_transactions, e, iterate_blocks-gather p blocks [])
          (ap (λ r. some r.0) (iterate_blocks-gather p blocks []))
  ]

  -- The map holds, under each hash, the block of the ledger.
  abbrev pub Complete : Ledger g → Map Block → Type 0
  Complete l blocks = (h : Hash) → lookup h blocks ≡ get_block g h l

  lookup-collect_vertices :
      (l : Ledger g) (m : Map (List Hash)) (blocks : Map Block) (h : Hash)
      → lookup h (collect_vertices g l m blocks)
        ≡ (if has h m && is_some (get_block g h l) then get_block g h l else lookup h blocks)
  unfolding collect_vertices lookup
  lookup-collect_vertices l [] blocks h = refl
  lookup-collect_vertices l ((k, targets) ∷ m) blocks h = elim (Option-cases (get_block g k l)) [
    | inl e ↦ rw e (ground (arith, e, beq_iff k h, lookup-collect_vertices l m blocks h))
    | inr (b, e) ↦ rw e (
        ground (
          arith,
          e,
          beq_iff k h,
          lookup-insert k h b blocks,
          lookup-collect_vertices l m (insert k b blocks) h,
        ))
  ]

  collect_vertices-Distinct :
      (l : Ledger g) (m : Map (List Hash)) (blocks : Map Block)
      → Distinct blocks
      → Distinct (collect_vertices g l m blocks)
  unfolding collect_vertices
  collect_vertices-Distinct l [] blocks d = d
  collect_vertices-Distinct l ((k, targets) ∷ m) blocks d = elim (Option-cases (get_block g k l)) [
    | inl e ↦ rw e (collect_vertices-Distinct l m blocks d)
    | inr (b, e) ↦
        rw e (collect_vertices-Distinct l m (insert k b blocks) (insert-Distinct k b blocks d))
  ]

  -- The loops over the edges find nothing new.
  collect_targets-same :
      (l : Ledger g) (targets : List Hash) (blocks : Map Block)
      → Complete l blocks
      → collect_targets g l targets blocks ≡ blocks
  unfolding collect_targets
  collect_targets-same l [] blocks c = refl
  collect_targets-same l (t ∷ targets) blocks c = elim (Option-cases (get_block g t l)) [
    | inl e ↦ rw (c t ∙ e, e) (collect_targets-same l targets blocks c)
    | inr (b, e) ↦ rw (c t ∙ e) (collect_targets-same l targets blocks c)
  ]

  collect_edges-same :
      (l : Ledger g) (m : Map (List Hash)) (blocks : Map Block)
      → Complete l blocks
      → collect_edges g l m blocks ≡ blocks
  unfolding collect_edges
  collect_edges-same l [] blocks c = refl
  collect_edges-same l ((k, targets) ∷ m) blocks c =
      rw (collect_targets-same l targets blocks c) (collect_edges-same l m blocks c)

  -- `ListBlocks` lists every block of the ledger once: the list holds the values of a map without
  -- repeated keys in which each hash has the block that `GetBlock` returns for it.
  pub list_blocks-Complete :
      (laws : IsGraph g) (l : Ledger g) (blocks : List Block)
      → list_blocks g l ≡ some blocks
      → (m : Map Block) × (values m ≡ blocks) × Distinct m × Complete l m
  unfolding list_blocks blocks_map get_block lookup
  list_blocks-Complete laws l blocks h = elim (Option-cases (g.adjacency_map l.graph)) [
    | inl e ↦ absurd (ground (arith, e))
    | inr (m, e) ↦
        let vertices = collect_vertices g l m [] in
        let complete : Complete l vertices = λ k.
          ground (arith, lookup-collect_vertices l m [] k, laws.has-adjacency_map l.graph m k e) in
        let same = collect_edges-same l m vertices complete in
        (vertices, ground (arith, e, same), collect_vertices-Distinct l m [] tt, complete)
  ]
