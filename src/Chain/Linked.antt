-- ===== src/Chain/Linked.antt =====
-- How the blocks of the chain hang together, from one call to the next (pkg/chain/blocks.go and
-- organization.go).
use mathlib.Core.Path.{subst}
use peerdns.Prelude.{
  suc, ◌^◌, ◌<◌, ◌≡◌, ◌⊎◌, inl, inr, refl, sym, ap, ◌∙◌, false, Option, none, some, arith, Bytes,
  beq, beq_iff, length, Bool-cases, Option-cases,
}
use peerdns.Prelude.Int.{ℤ, ltb_ℤ}
use peerdns.Types.Hash.{Hash, zero_hash, hash_size}
use peerdns.Types.Block.{Block}
use peerdns.Ledger.Graph.{Graph, IsGraph}
use peerdns.Ledger.Blocks
use peerdns.Ledger.Blocks.{Ledger, get_block}
use peerdns.Ledger.Blocks.Stored.{Extends, add_block-Extends}
use peerdns.Ledger.Validation.Blocks.Accepted.{Follows, check_block-Sound, genesis, successor}
use peerdns.Chain.{
  Blockchain, max_time_drift, validate_block, append_block, add_block, extend_head,
  handle_incoming_block,
}

module _ (g : Graph) where
  -- A block is the first of its chain, or the ledger has its predecessor, one index lower and with
  -- no later timestamp.
  abbrev pub Linked : g.Contents → Block → Type 0
  Linked c b =
      (b.index < 2 ^ 64)
      × (((b.index ≡ 0) × (b.previous_hash ≡ zero_hash))
          ⊎ ((p : Block) × (g.vertex c b.previous_hash ≡ some p)
              × (b.index ≡ suc p.index)
              × (ltb_ℤ b.timestamp p.timestamp ≡ false)))

  abbrev pub AllLinked : g.Contents → Type 0
  AllLinked c = (h : Hash) (b : Block) → g.vertex c h ≡ some b → Linked c b

  -- No other block has the hash.
  abbrev pub Fresh : g.Contents → Block → Type 0
  Fresh c b = (g.vertex c b.hash ≡ none) ⊎ (g.vertex c b.hash ≡ some b)

  -- A block that is found stays.
  abbrev pub Stays : g.Contents → g.Contents → Type 0
  Stays c d = (h : Hash) (x : Block) → g.vertex c h ≡ some x → g.vertex d h ≡ some x

  Extends-Stays : (b : Block) (c d : g.Contents) → Fresh c b → Extends g b c d → Stays c d
  Extends-Stays b c d fresh grown h x found = elim grown [
    | inl same ↦ same h ∙ found
    | inr (self, ne) ↦ elim (Bool-cases (beq b.hash h)) [
      | inr e ↦ ne h (ground (arith, beq_iff b.hash h)) ∙ found
      | inl e ↦
          let eq = (beq_iff b.hash h).0 e in
          let at_hash = ap (g.vertex c) eq ∙ found in
          elim fresh [
            | inl free ↦ absurd (ground (arith, free, at_hash))
            | inr old ↦ ap (g.vertex d) (sym eq) ∙ self ∙ sym old ∙ at_hash
          ]
    ]
  ]

  Linked-Stays : (c d : g.Contents) (b : Block) → Stays c d → Linked c b → Linked d b
  Linked-Stays c d b stays (small, inl first) = (small, inl first)
  Linked-Stays c d b stays (small, inr (p, found, index, time)) =
      (small, inr (p, stays b.previous_hash p found, index, time))

  Follows-Linked :
      (c : g.Contents) (b : Block)
      → AllLinked c
      → Follows b (g.vertex c b.previous_hash)
      → Linked c b
  Follows-Linked c b all follows = go (g.vertex c b.previous_hash) refl follows
    where
      go : (o : Option Block) → g.vertex c b.previous_hash ≡ o → Follows b o → Linked c b
      go o e (genesis z p) = (omega (arith, z), inl (z, p))
      go _ e (successor {p} positive index time) =
          let small = (all b.previous_hash p e).0 in
          (omega (arith, index), inr (p, e, omega (arith, index, positive, small), time))

module _ (g : Graph) (laws : IsGraph g) where
  -- The ledger's call keeps the links, for a block that follows.
  add_block-AllLinked :
      (b : Block) (l : Ledger g)
      → length b.hash ≡ hash_size
      → Fresh g l.graph b
      → Follows b (get_block g b.previous_hash l)
      → AllLinked g l.graph
      → AllLinked g (Blocks.add_block g b l).0.graph
  unfolding get_block
  add_block-AllLinked b l n fresh follows all h x found =
      let d = (Blocks.add_block g b l).0.graph in
      let grown = add_block-Extends g laws b l n in
      let stays = Extends-Stays g b l.graph d fresh grown in
      let linked : (y : Block) → Linked g l.graph y → Linked g d y =
        λ y. Linked-Stays g l.graph d y stays in
      elim grown [
        | inl same ↦ linked x (all h x (sym (same h) ∙ found))
        | inr (self, ne) ↦ elim (Bool-cases (beq b.hash h)) [
          | inr e ↦ linked x (all h x (sym (ne h (ground (arith, beq_iff b.hash h))) ∙ found))
          | inl e ↦
              let eq = ap (g.vertex d) ((beq_iff b.hash h).0 e) in
              let is_b : b ≡ x = ground (arith, self, eq, found) in
              subst (Linked g d) is_b (linked b (Follows-Linked g l.graph b all follows))
        ]
      ]

  append_block-AllLinked :
      (b : Block) (bc : Blockchain g)
      → length b.hash ≡ hash_size
      → Fresh g bc.ledger.graph b
      → Follows b (get_block g b.previous_hash bc.ledger)
      → AllLinked g bc.ledger.graph
      → AllLinked g (append_block g b bc).0.ledger.graph
  unfolding append_block
  append_block-AllLinked b bc n fresh follows all =
      let kept = add_block-AllLinked b bc.ledger n fresh follows all in
      elim (Option-cases (Blocks.add_block g b bc.ledger).1) [
        | inl e ↦ rw (append_block, e) kept
        | inr (x, e) ↦ rw (append_block, e) kept
      ]

  validated-Follows :
      (sha256 : Bytes → Hash) (now : ℤ) (b : Block) (bc : Blockchain g)
      → validate_block g sha256 now b bc ≡ none
      → Follows b (get_block g b.previous_hash bc.ledger)
  unfolding validate_block
  validated-Follows sha256 now b bc ok =
      (check_block-Sound sha256 max_time_drift now b (get_block g b.previous_hash bc.ledger)
        bc.ledger.state none ok).0.0

  extend_head-AllLinked :
      (b : Block) (bc : Blockchain g)
      → AllLinked g bc.ledger.graph
      → AllLinked g (append_block g b bc).0.ledger.graph
      → AllLinked g (extend_head g b bc).0.ledger.graph
  unfolding extend_head
  extend_head-AllLinked b bc all kept = elim (Option-cases bc.head) [
    | inl e ↦ rw (extend_head, e) all
    | inr (head, e) ↦ elim (Bool-cases (beq b.previous_hash head.hash)) [
      | inl f ↦ rw (extend_head, e, f) kept
      | inr f ↦ rw (extend_head, e, f) all
    ]
  ]

  -- `AddBlock` and `HandleIncomingBlock` of the chain, successful or not, keep the links between
  -- blocks, where no other block of the ledger has the hash of the one given.
  pub add_block-handle_incoming_block-AllLinked :
      (sha256 : Bytes → Hash) (now : ℤ) (b : Block) (bc : Blockchain g)
      → length b.hash ≡ hash_size
      → Fresh g bc.ledger.graph b
      → AllLinked g bc.ledger.graph
      → AllLinked g (add_block g sha256 now b bc).0.ledger.graph
        × AllLinked g (handle_incoming_block g sha256 now b bc).0.ledger.graph
  unfolding add_block handle_incoming_block
  add_block-handle_incoming_block-AllLinked sha256 now b bc n fresh all =
      elim (Option-cases (validate_block g sha256 now b bc)) [
        | inr (x, e) ↦ (rw (add_block, e) all, rw (handle_incoming_block, e) all)
        | inl e ↦
            let follows = validated-Follows sha256 now b bc e in
            let kept = append_block-AllLinked b bc n fresh follows all in
            (
              rw (add_block, e) kept,
              rw (handle_incoming_block, e) (extend_head-AllLinked b bc all kept),
            )
      ]
