-- ===== src/Ledger/Blocks/Stored.antt =====
-- Which blocks the ledger holds after a call, and with which balances (pkg/ledger/block.go).
use mathlib.Core.Path.{subst}
use peerdns.Prelude.{
  ap, Option-cases, Bool-cases, List, [], ◌∷◌, ◌≡◌, ◌≢◌, ◌⊎◌, inl, inr, refl, ◌∙◌, true, false,
  none, some, arith, beq, beq_iff, length,
}
use peerdns.Types.Hash.{Hash, is_zero_hash, hash_size}
use peerdns.Types.Block.{Block, serialize}
use peerdns.Ledger.State.{apply_block}
use peerdns.Ledger.Graph.{Graph, IsGraph}
use peerdns.Prelude.Map.{Map}
use peerdns.Ledger.Blocks.{
  first_without_successors, get_latest_block, Ledger, fails, store_genesis, add_genesis, link,
  add_successor, add_block, get_block, cycle_check_failed, add_vertex_failed,
}

module _ (g : Graph) where
  abbrev pub SameVertices : g.Contents → g.Contents → Type 0
  SameVertices c d = (h : Hash) → g.vertex d h ≡ g.vertex c h

  -- Nothing changes but that the block may now stand under its hash.
  abbrev pub Extends : Block → g.Contents → g.Contents → Type 0
  Extends b c d =
      SameVertices c d
      ⊎ ((g.vertex d b.hash ≡ some b) × ((h : Hash) → b.hash ≢ h → g.vertex d h ≡ g.vertex c h))

module _ (g : Graph) where
  -- Whatever the graph does, the transactions are applied.
  pub add_successor-state :
      (b : Block) (l : Ledger g) → (add_successor g b l).0.state ≡ apply_block b l.state
  unfolding add_successor link
  add_successor-state b l =
      let c = (g.add_vertex l.graph b).0 in
      elim (Bool-cases (fails (g.add_vertex l.graph b).1)) [
        | inl e ↦ rw (add_successor, e) refl
        | inr e ↦ elim (Option-cases (g.creates_cycle c b.previous_hash b.hash)) [
          | inl f ↦ rw (add_successor, e, link, f) refl
          | inr (true, f) ↦ rw (add_successor, e, link, f) refl
          | inr (false, f) ↦ rw (add_successor, e, link, f) refl
        ]
      ]

module _ (g : Graph) (laws : IsGraph g) where
  Extends-same :
      (b : Block) (c d e : g.Contents) → Extends g b c d → SameVertices g d e → Extends g b c e
  Extends-same b c d e x same = elim x [
    | inl s ↦ inl (λ h. same h ∙ s h)
    | inr (self, ne) ↦ inr (same b.hash ∙ self, λ h n. same h ∙ ne h n)
  ]

  add_vertex-Extends : (b : Block) (c : g.Contents) → Extends g b c (g.add_vertex c b).0
  add_vertex-Extends b c = elim (Option-cases (g.add_vertex c b).1) [
    | inl e ↦ inr (laws.vertex-add_vertex_self c b e, laws.vertex-add_vertex_ne c b)
    | inr (x, e) ↦ inl (λ h. ap (λ d. g.vertex d h) (laws.add_vertex_error c b x e))
  ]

  link-same : (b : Block) (l : Ledger g) → SameVertices g l.graph (link g b l).0.graph
  unfolding link
  link-same b l h = elim (Option-cases (g.creates_cycle l.graph b.previous_hash b.hash)) [
    | inl e ↦ rw (link, e) refl
    | inr (true, e) ↦ rw (link, e) refl
    | inr (false, e) ↦ rw (link, e) (laws.vertex-add_edge l.graph b.previous_hash b.hash h)
  ]

  store_genesis-same :
      (b : Block) (l : Ledger g)
      → length b.hash ≡ hash_size
      → SameVertices g l.graph (store_genesis g b l).0.graph
  unfolding store_genesis
  store_genesis-same b l n h = elim (Option-cases (serialize b)) [
    | inl e ↦ rw (store_genesis, e) refl
    | inr (value, e) ↦ elim (Option-cases (g.set l.graph b.hash value)) [
      | inl f ↦ rw (store_genesis, e, f) refl
      | inr (d, f) ↦ rw (store_genesis, e, f) (laws.vertex-set l.graph d b.hash value h n f)
    ]
  ]

  add_genesis-Extends :
      (b : Block) (l : Ledger g)
      → length b.hash ≡ hash_size
      → Extends g b l.graph (add_genesis g b l).0.graph
  unfolding add_genesis
  add_genesis-Extends b l n =
      let added = g.add_vertex l.graph b in
      let grown = add_vertex-Extends b l.graph in
      let next = record l { graph = added.0 } in
      elim (Bool-cases (fails added.1)) [
        | inl e ↦ rw e grown
        | inr e ↦ rw e (
            Extends-same b l.graph added.0 (store_genesis g b next).0.graph grown
              (store_genesis-same b next n))
      ]

  add_successor-Extends :
      (b : Block) (l : Ledger g) → Extends g b l.graph (add_successor g b l).0.graph
  unfolding add_successor
  add_successor-Extends b l =
      let added = g.add_vertex l.graph b in
      let grown = add_vertex-Extends b l.graph in
      let next : Ledger g = record { graph = added.0; state = apply_block b l.state } in
      elim (Bool-cases (fails added.1)) [
        | inl e ↦ rw e grown
        | inr e ↦
            rw e (Extends-same b l.graph added.0 (link g b next).0.graph grown (link-same b next))
      ]

  -- A call of `AddBlock`, whether it succeeds or not, changes no other block than the one given,
  -- and that one is either stored as given or left as it was.
  pub add_block-Extends :
      (b : Block) (l : Ledger g)
      → length b.hash ≡ hash_size
      → Extends g b l.graph (add_block g b l).0.graph
  unfolding add_block
  add_block-Extends b l n = elim (Bool-cases (is_zero_hash b.previous_hash)) [
    | inl e ↦ rw e (add_genesis-Extends b l n)
    | inr e ↦ rw e (add_successor-Extends b l)
  ]

  -- A block that is found before a call of `AddBlock` is found after it, whether it succeeds or
  -- not: under its hash there is still that block or, if the hashes are equal, the new one.
  pub get_block-add_block :
      (b old : Block) (h : Hash) (l : Ledger g)
      → length b.hash ≡ hash_size
      → get_block g h l ≡ some old
      → (get_block g h (add_block g b l).0 ≡ some old)
        ⊎ ((b.hash ≡ h) × (get_block g h (add_block g b l).0 ≡ some b))
  unfolding get_block
  get_block-add_block b old h l n found = elim (add_block-Extends b l n) [
    | inl same ↦ inl (same h ∙ found)
    | inr (self, ne) ↦ elim (Bool-cases (beq b.hash h)) [
      | inl e ↦
          let eq = (beq_iff b.hash h).0 e in
          inr (eq, subst (λ k. g.vertex (add_block g b l).0.graph k ≡ some b) eq self)
      | inr e ↦ inl (ne h (ground (arith, beq_iff b.hash h)) ∙ found)
    ]
  ]

  add_successor_unknown :
      (b : Block) (l : Ledger g)
      → get_block g b.previous_hash l ≡ none
      → b.hash ≢ b.previous_hash
      → ((add_successor g b l).1 ≡ some add_vertex_failed)
        ⊎ ((add_successor g b l).1 ≡ some cycle_check_failed)
  unfolding add_successor link get_block
  add_successor_unknown b l u ne =
      let added = g.add_vertex l.graph b in
      let gone =
        laws.creates_cycle_unknown added.0 b.previous_hash b.hash
          (laws.vertex-add_vertex_ne l.graph b b.previous_hash ne ∙ u) in
      elim (Bool-cases (fails added.1)) [
        | inl e ↦ rw e (inl refl)
        | inr e ↦ rw (e, link, gone) (inr refl)
      ]

  -- `AddBlock` of a block whose previous hash is not the zero hash applies the block's transactions
  -- to the balances and nonces, whatever its result is, also when it reports an error; and it
  -- reports one, of adding the vertex or of the cycle check, unless the ledger has a block with the
  -- previous hash or the block's two hashes are equal.
  pub add_block-apply_block :
      (b : Block) (l : Ledger g)
      → is_zero_hash b.previous_hash ≡ false
      → ((add_block g b l).0.state ≡ apply_block b l.state)
        × ((b.hash ≡ b.previous_hash)
            ⊎ (((p : Block) × (get_block g b.previous_hash l ≡ some p))
                ⊎ (((add_block g b l).1 ≡ some add_vertex_failed)
                    ⊎ ((add_block g b l).1 ≡ some cycle_check_failed))))
  unfolding add_block
  add_block-apply_block b l z = rw (z) (
    add_successor-state g b l,
    elim (Bool-cases (beq b.hash b.previous_hash)) [
      | inl e ↦ inl ((beq_iff b.hash b.previous_hash).0 e)
      | inr e ↦ elim (Option-cases (get_block g b.previous_hash l)) [
        | inl u ↦
            inr (inr (add_successor_unknown b l u (ground (arith, beq_iff b.hash b.previous_hash))))
        | inr found ↦ inr (inl found)
      ]
    ],
  )

module _ (g : Graph) where
  first_without_successors-stored :
      (m : Map (List Hash)) (l : Ledger g) (b : Block)
      → first_without_successors g m l ≡ some b
      → (h : Hash) × (g.vertex l.graph h ≡ some b)
  unfolding first_without_successors
  first_without_successors-stored [] l b e = absurd (ground arith)
  first_without_successors-stored ((h, []) ∷ m) l b e = (h, e)
  first_without_successors-stored ((h, t ∷ targets) ∷ m) l b e =
      first_without_successors-stored m l b e

  -- The latest block is one of the blocks of the ledger.
  pub get_latest_block-stored :
      (l : Ledger g) (b : Block)
      → get_latest_block g l ≡ some b
      → (h : Hash) × (get_block g h l ≡ some b)
  unfolding get_latest_block get_block
  get_latest_block-stored l b e = elim (Option-cases (g.adjacency_map l.graph)) [
    | inl f ↦ absurd (ground (arith, f))
    | inr (m, f) ↦ first_without_successors-stored m l b (ground (arith, f))
  ]
