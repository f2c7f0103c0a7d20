-- ===== src/Sequencer/Forging.antt =====
-- Which blocks that the producer forges pass the checks of the chain (pkg/sequencer/producer.go).
use mathlib.Core.Path.{subst}
use peerdns.Prelude.{
  ◌+◌, ◌%◌, ◌^◌, ◌<◌, ◌≡◌, ◌↔◌, sym, ap, ◌∙◌, false, none, some, List, arith, ◌==◌, Bytes,
}
use peerdns.Prelude.Int.{ℤ, pos, ltb_ℤ, ◌+ℤ◌}
use peerdns.Types.Hash.{Hash}
use peerdns.Types.Transaction.{Transaction}
use peerdns.Types.Block.{Block}
use peerdns.Types.Block.Made.{IsMade, new_block-IsMade}
use peerdns.Ledger.State.{wrap_int64}
use peerdns.Ledger.Graph.{Graph}
use peerdns.Ledger.Blocks.{get_block}
use peerdns.Ledger.Validation.{validate_transactions}
use peerdns.Ledger.Validation.Blocks.Accepted.{Follows, successor, Sound, Sound-check_block}
use peerdns.Chain.{Blockchain, max_time_drift, validate_block}
use peerdns.Chain.Refusal.{validate_block-Sound}
use peerdns.Sequencer.{assemble}

pub assemble-IsMade :
    (sha256 : Bytes → Hash) (created : ℤ) (txs : List Transaction) (latest b : Block)
    → assemble sha256 created txs latest ≡ some b
    → IsMade sha256 created ((latest.index + 1) % 2 ^ 64) latest.hash txs b
unfolding assemble
assemble-IsMade sha256 created txs latest b h =
    new_block-IsMade sha256 created ((latest.index + 1) % 2 ^ 64) latest.hash txs
      latest.validator_id latest.difficulty b h

-- The index of the new block is not 0, so its transactions are checked as any other's.
pub made-not_genesis :
    (sha256 : Bytes → Hash) (created : ℤ) (txs : List Transaction) (latest b : Block)
    → latest.index + 1 < 2 ^ 64
    → IsMade sha256 created ((latest.index + 1) % 2 ^ 64) latest.hash txs b
    → (b.index == 0) ≡ false
made-not_genesis sha256 created txs latest b small made = ground (arith, made.same_index)

module _ (g : Graph) where
  -- A block that is assembled on a block of the ledger passes the chain's checks exactly if all its
  -- transactions pass in the present state: where the latest block is stored under its hash, the
  -- clock has not gone back behind it, nor by more than five minutes since the block was made, and
  -- the index stays below 2 ^ 64.
  pub validate_block-assemble_iff :
      (sha256 : Bytes → Hash) (created now : ℤ) (txs : List Transaction) (latest b : Block)
      (bc : Blockchain g)
      → assemble sha256 created txs latest ≡ some b
      → get_block g latest.hash bc.ledger ≡ some latest
      → latest.index + 1 < 2 ^ 64
      → ltb_ℤ created latest.timestamp ≡ false
      → ltb_ℤ (wrap_int64 (now +ℤ pos max_time_drift)) created ≡ false
      → (validate_block g sha256 now b bc ≡ none)
        ↔ (validate_transactions txs false bc.ledger.state ≡ none)
  unfolding validate_block
  validate_block-assemble_iff sha256 created now txs latest b bc h stored small later ahead =
      let made = assemble-IsMade sha256 created txs latest b h in
      let fresh = made-not_genesis sha256 created txs latest b small made in
      let s = bc.ledger.state in
      let previous = get_block g b.previous_hash bc.ledger in
      let found : previous ≡ some latest =
        ap (λ k. get_block g k bc.ledger) made.same_previous_hash ∙ stored in
      (
        λ ok.
            let passed = (validate_block-Sound g sha256 now b bc ok).4 in
            subst (λ ts. validate_transactions ts false s ≡ none) made.same_transactions
              (subst (λ z. validate_transactions b.transactions z s ≡ none) fresh passed),
        λ ok.
            let follows : Follows b (some latest) =
              successor (ground (arith, made.same_index, small)) made.same_index
                (ap (λ t. ltb_ℤ t latest.timestamp) made.same_timestamp ∙ later) in
            let sound : Sound sha256 max_time_drift now b previous s = (
              subst (Follows b) (sym found) follows,
              made.own_hash,
              made.own_merkle_root,
              ap (λ t. ltb_ℤ (wrap_int64 (now +ℤ pos max_time_drift)) t) made.same_timestamp
                  ∙ ahead,
              subst (λ z. validate_transactions b.transactions z s ≡ none) (sym fresh)
                  (subst (λ ts. validate_transactions ts false s ≡ none)
                    (sym made.same_transactions) ok),
            ) in
            Sound-check_block sha256 max_time_drift now b previous s none sound,
      )
