-- ===== src/Chain/Setup.antt =====
-- What the setup of the blockchain does with a ledger (pkg/chain/chain.go).
use peerdns.Prelude.{
  ℕ, zero, suc, ◌<◌, ◌≡◌, inl, inr, refl, Option, none, some, arith, Bytes, beq, beq_iff,
  Bool-cases,
}
use peerdns.Prelude.Int.{ℤ}
use peerdns.Types.Hash.{Hash, zero_hash}
use peerdns.Types.Block.{Block}
use peerdns.Genesis.{Genesis}
use peerdns.Ledger.Graph.{Graph}
use peerdns.Ledger.Blocks.{Ledger, get_block, get_latest_block}
use peerdns.Chain.{
  Walk, arrived, find_genesis, setup_found, setup_from, new_blockchain, no_latest_block,
}
use peerdns.Chain.Linked.{Linked, AllLinked}
use peerdns.Ledger.Blocks.Stored.{get_latest_block-stored}

module _ (g : Graph) where
  -- The walk ends at a block without a predecessor.
  abbrev pub Arrives : Walk → Type 0
  Arrives w = (b : Block) × (w ≡ arrived b) × (b.previous_hash ≡ zero_hash)

  -- From a block of a linked ledger the walk to the genesis block arrives, with more fuel than the
  -- block's index.
  find_genesis-Arrives :
      (fuel : ℕ) (b : Block) (l : Ledger g)
      → AllLinked g l.graph
      → Linked g l.graph b
      → b.index < fuel
      → Arrives (find_genesis g fuel b l)
  unfolding find_genesis get_block
  find_genesis-Arrives zero b l all linked h = absurd (omega (arith, h))
  find_genesis-Arrives (suc fuel) b l all linked h =
      elim (Bool-cases (beq b.previous_hash zero_hash)) [
        | inl e ↦ rw (find_genesis, e) (b, refl, (beq_iff b.previous_hash zero_hash).0 e)
        | inr e ↦ elim linked.1 [
          | inl first ↦ absurd (ground (arith, e, first.1, beq_iff b.previous_hash zero_hash))
          | inr (p, found, index, time) ↦
              rw (find_genesis, e, found)
                (find_genesis-Arrives fuel p l all (all b.previous_hash p found)
                  (omega (arith, h, index)))
        ]
      ]

  -- On a ledger whose blocks are linked and that has a latest block, `NewBlockchain` returns
  -- without an error: its loop arrives at a block with the zero hash as previous hash, with
  -- more fuel than the index of the latest block. The ledger stays, and the latest block is the head.
  pub new_blockchain-linked :
      (sha256 : Bytes → Hash) (set_string : Bytes → Option ℕ) (now : ℤ) (fuel : ℕ)
      (config : Genesis) (l : Ledger g) (latest : Block)
      → AllLinked g l.graph
      → get_latest_block g l ≡ some latest
      → latest.index < fuel
      → (b : Block) × (b.previous_hash ≡ zero_hash)
        × (new_blockchain g sha256 set_string now fuel config l
            ≡ (record { ledger = l; head = some latest; genesis_block = some b }, none))
  unfolding new_blockchain setup_from setup_found get_block
  new_blockchain-linked sha256 set_string now fuel config l latest all last enough =
      let (h, found) = get_latest_block-stored g l latest last in
      let walk = find_genesis-Arrives fuel latest l all (all h latest found) enough in
      (walk.0, walk.2, rw (new_blockchain, last, setup_found, walk.1) refl)

  -- `NewBlockchain` on a ledger without a latest block, as an empty one, fails, and leaves the
  -- ledger as it is: the genesis block of the configuration is not made.
  pub new_blockchain-no_latest_block :
      (sha256 : Bytes → Hash) (set_string : Bytes → Option ℕ) (now : ℤ) (fuel : ℕ)
      (config : Genesis) (l : Ledger g)
      → get_latest_block g l ≡ none
      → new_blockchain g sha256 set_string now fuel config l
        ≡ (record { ledger = l; head = none; genesis_block = none }, some no_latest_block)
  unfolding new_blockchain setup_from
  new_blockchain-no_latest_block sha256 set_string now fuel config l none_found =
      rw (new_blockchain, none_found) refl
