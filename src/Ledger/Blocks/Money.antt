-- ===== src/Ledger/Blocks/Money.antt =====
-- The money in the ledger, from one block to the next (pkg/ledger/block.go).
use peerdns.Prelude.{
  ℕ, ◌+◌, ◌^◌, ◌<◌, ◌≡◌, refl, Bool, true, false, none, List, [], ◌∷◌, arith, if◌then◌else◌,
  Option-cases, inl, inr,
}
use peerdns.Prelude.Int.{to_int64}
use peerdns.Types.Hash.{is_zero_hash}
use peerdns.Types.Transaction.{Transaction}
use peerdns.Types.Block.{Block, serialize}
use peerdns.Ledger.State.{State, update_balance}
use peerdns.Ledger.State.Conservation.{total, total-credit, total-apply_block, AllFunded}
use peerdns.Ledger.Graph.{Graph}
use peerdns.Ledger.Blocks.Stored.{add_successor-state}
use peerdns.Ledger.Blocks.{Ledger, allocate, store_genesis, add_genesis, add_successor, add_block}

-- The amounts of the transactions.
abbrev pub amounts : List Transaction → ℕ
amounts [] = 0
amounts (tx ∷ txs) = tx.amount + amounts txs

pub total-allocate :
    (txs : List Transaction) (s : State)
    → total s + amounts txs < 2 ^ 63
    → total (allocate txs s) ≡ total s + amounts txs
unfolding allocate
total-allocate [] s h = omega arith
total-allocate (tx ∷ txs) s h =
    let credit = total-credit tx.recipient tx.amount s (omega (arith, h)) in
    let next = update_balance tx.recipient (to_int64 tx.amount) s in
    omega (arith, h, credit, total-allocate txs next (omega (arith, h, credit)))

module _ (g : Graph) where
  add_genesis-state :
      (b : Block) (l : Ledger g)
      → (add_genesis g b l).1 ≡ none
      → (add_genesis g b l).0.state ≡ allocate b.transactions l.state
  unfolding add_genesis store_genesis
  add_genesis-state b l ok =
      let c = (g.add_vertex l.graph b).0 in
      elim (Option-cases (serialize b)) [
        | inl e ↦ absurd (ground (arith, ok, e))
        | inr (value, e) ↦ elim (Option-cases (g.set c b.hash value)) [
          | inl f ↦ absurd (ground (arith, ok, e, f))
          | inr (d, f) ↦ ground (arith, ok, e, f)
        ]
      ]

  -- What a block may ask of the money in the ledger: a genesis block that the sum stays below
  -- 2 ^ 63, any other block also that each sender has the amount and the fee at its turn.
  abbrev pub Affordable : Block → State → Type 0
  Affordable b s =
      if is_zero_hash b.previous_hash
      then total s + amounts b.transactions < 2 ^ 63
      else ((total s < 2 ^ 63) × AllFunded b.validator_id b.transactions s)

  -- A successful `AddBlock` of an affordable block makes money exactly where the block has the zero
  -- hash as previous hash, which the ledger does not restrict to its first block: then the sum of
  -- the balances grows by the amounts of the transactions, else it stays.
  pub total-add_block :
      (b : Block) (l : Ledger g)
      → (add_block g b l).1 ≡ none
      → Affordable b l.state
      → total (add_block g b l).0.state ≡ (
          if is_zero_hash b.previous_hash
          then total l.state + amounts b.transactions
          else (total l.state))
  unfolding add_block
  total-add_block b l ok affordable = go (is_zero_hash b.previous_hash) refl ok affordable
    where
      go :
          (z : Bool)
          → is_zero_hash b.previous_hash ≡ z
          → (if z then add_genesis g b l else add_successor g b l).1 ≡ none
          → (if z
              then total l.state + amounts b.transactions < 2 ^ 63
              else ((total l.state < 2 ^ 63) × AllFunded b.validator_id b.transactions l.state))
          → total (if z then add_genesis g b l else add_successor g b l).0.state
            ≡ (if z then total l.state + amounts b.transactions else total l.state)
      go true e ok h = rw (add_genesis-state b l ok) (total-allocate b.transactions l.state h)
      go false e ok h = rw (add_successor-state g b l) (total-apply_block b l.state h.1 h.0)
