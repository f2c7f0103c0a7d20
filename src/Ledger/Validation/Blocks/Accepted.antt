-- ===== src/Ledger/Validation/Blocks/Accepted.antt =====
-- Which blocks pass the checks (pkg/ledger/validation.go, and pkg/chain/validation.go).
use peerdns.Prelude.{
  ℕ, ◌+◌, ◌%◌, ◌^◌, ◌≡◌, ◌↔◌, ◌<◌, true, false, Option, none, some, arith, ltb, ◌==◌, if◌then◌else◌,
  Bytes, beq_iff, Bool-cases, ◌∙◌, refl, inl, inr,
}
use peerdns.Prelude.Int.{ℤ, pos, ltb_ℤ, ◌+ℤ◌}
use peerdns.Types.Hash.{Hash, zero_hash}
use peerdns.Types.Block.{Block, compute_hash, compute_merkle_root}
use peerdns.Ledger.State.{State, wrap_int64}
use peerdns.Ledger.Graph.{Graph}
use peerdns.Ledger.Blocks.{Ledger, get_block}
use peerdns.Ledger.Validation.{validate_transactions, validate_consensus_rules}
use peerdns.Ledger.Validation.Blocks.{
  max_time_drift, InvalidBlock, first, check_index, check_hashes, check_timestamp,
  check_transactions, validate_block, consensus_rules,
}

-- What the index and the timestamp of a block must be: 0 and no predecessor, or one more than the
-- predecessor's and not before it.
pub data Follows (b : Block) : Option Block → Type 0 where
  genesis :
      {previous : Option Block} → b.index ≡ 0 → b.previous_hash ≡ zero_hash → Follows b previous
  successor :
      {p : Block}
      → 0 < b.index
      → b.index ≡ (p.index + 1) % 2 ^ 64
      → ltb_ℤ b.timestamp p.timestamp ≡ false
      → Follows b (some p)

pub first-none : (a b : Option InvalidBlock) → first a b ≡ none → (a ≡ none) × (b ≡ none)
first-none a b h = ground arith

-- The index and the timestamp pass exactly if the block follows the block with the previous hash.
check-Follows :
    (drift : ℕ) (now : ℤ) (b : Block) (previous : Option Block)
    → check_index b previous ≡ none
    → check_timestamp drift now b previous ≡ none
    → Follows b previous
unfolding check_index check_timestamp
check-Follows drift now b none i t =
    genesis (ground arith) (ground (arith, beq_iff b.previous_hash zero_hash))
check-Follows drift now b (some p) i t = elim (Bool-cases (ltb 0 b.index)) [
  | inl e ↦ successor (ground arith) (ground arith) (ground arith)
  | inr e ↦ genesis (ground arith) (ground (arith, beq_iff b.previous_hash zero_hash))
]

Follows-check :
    (drift : ℕ) (now : ℤ) (b : Block) (previous : Option Block)
    → ltb_ℤ (wrap_int64 (now +ℤ pos drift)) b.timestamp ≡ false
    → Follows b previous
    → (check_index b previous ≡ none) × (check_timestamp drift now b previous ≡ none)
unfolding check_index check_timestamp
Follows-check drift now b previous t (genesis z p) =
    (ground (arith, beq_iff b.previous_hash zero_hash), ground arith)
Follows-check drift now b _ t (successor i e k) = (ground arith, ground arith)

check_hashes_iff :
    (sha256 : Bytes → Hash) (b : Block)
    → (check_hashes sha256 b ≡ none) ↔ (
        (b.hash ≡ compute_hash sha256 b)
        × (b.merkle_root ≡ compute_merkle_root sha256 b.transactions))
unfolding check_hashes
check_hashes_iff sha256 b = ground (
  arith,
  beq_iff b.hash (compute_hash sha256 b),
  beq_iff b.merkle_root (compute_merkle_root sha256 b.transactions),
)

check_timestamp-bound :
    (drift : ℕ) (now : ℤ) (b : Block) (previous : Option Block)
    → check_timestamp drift now b previous ≡ none
    → ltb_ℤ (wrap_int64 (now +ℤ pos drift)) b.timestamp ≡ false
unfolding check_timestamp
check_timestamp-bound drift now b previous h = ground arith

check_transactions_iff :
    (b : Block) (s : State)
    → (check_transactions b s ≡ none)
      ↔ (validate_transactions b.transactions (b.index == 0) s ≡ none)
unfolding check_transactions
check_transactions_iff b s = ground arith

-- What the checks up to the transactions ask of a block.
abbrev pub Sound : (Bytes → Hash) → ℕ → ℤ → Block → Option Block → State → Type 0
Sound sha256 drift now b previous s =
    Follows b previous
    × (b.hash ≡ compute_hash sha256 b)
    × (b.merkle_root ≡ compute_merkle_root sha256 b.transactions)
    × (ltb_ℤ (wrap_int64 (now +ℤ pos drift)) b.timestamp ≡ false)
    × (validate_transactions b.transactions (b.index == 0) s ≡ none)

-- All of the checks but the consensus rules, in the order of the source.
abbrev pub check_block :
    (Bytes → Hash)
    → ℕ
    → ℤ
    → Block
    → Option Block
    → State
    → Option InvalidBlock
    → Option InvalidBlock
check_block sha256 drift now b previous s rest = first (check_index b previous) (
    first (check_hashes sha256 b)
      (first (check_timestamp drift now b previous) (first (check_transactions b s) rest)))

pub check_block-Sound :
    (sha256 : Bytes → Hash) (drift : ℕ) (now : ℤ) (b : Block) (previous : Option Block) (s : State)
    (rest : Option InvalidBlock)
    → check_block sha256 drift now b previous s rest ≡ none
    → Sound sha256 drift now b previous s × (rest ≡ none)
check_block-Sound sha256 drift now b previous s rest h =
    let h1 = first-none (check_index b previous) _ h in
    let h2 = first-none (check_hashes sha256 b) _ h1.1 in
    let h3 = first-none (check_timestamp drift now b previous) _ h2.1 in
    let h4 = first-none (check_transactions b s) rest h3.1 in
    let hashes = (check_hashes_iff sha256 b).0 h2.0 in
    (
      (
        check-Follows drift now b previous h1.0 h3.0,
        hashes.0,
        hashes.1,
        check_timestamp-bound drift now b previous h3.0,
        (check_transactions_iff b s).0 h4.0,
      ),
      h4.1,
    )

pub Sound-check_block :
    (sha256 : Bytes → Hash) (drift : ℕ) (now : ℤ) (b : Block) (previous : Option Block) (s : State)
    (rest : Option InvalidBlock)
    → Sound sha256 drift now b previous s
    → check_block sha256 drift now b previous s rest ≡ rest
Sound-check_block sha256 drift now b previous s rest (follows, hash, root, time, txs) =
    let checks = Follows-check drift now b previous time follows in
    rw
      (
        checks.0,
        (check_hashes_iff sha256 b).1 (hash, root),
        checks.1,
        (check_transactions_iff b s).1 txs,
      )
      refl

-- `ValidateBlock` accepts exactly the blocks that follow the block with their previous hash, or
-- have index 0 and the zero hash as previous hash, whose hash and Merkle root are those that are
-- computed, which are at most 15 minutes ahead of the clock, whose transactions all pass in the
-- present state, and whose hash meets the difficulty.
pub validate_block_iff :
    (g : Graph) (sha256 : Bytes → Hash) (now : ℤ) (b : Block) (l : Ledger g)
    → (validate_block g sha256 now b l ≡ none) ↔ (
        Sound sha256 max_time_drift now b (get_block g b.previous_hash l) l.state
        × (validate_consensus_rules b ≡ true))
unfolding validate_block
validate_block_iff g sha256 now b l =
    let previous = get_block g b.previous_hash l in
    let rules : Option InvalidBlock =
      if validate_consensus_rules b then none else some consensus_rules in
    (
      λ h.
          let r = check_block-Sound sha256 max_time_drift now b previous l.state rules h in
          (r.0, ground (arith, r.1)),
      λ h. Sound-check_block sha256 max_time_drift now b previous l.state rules h.0 ∙ rw h.1 refl,
    )
