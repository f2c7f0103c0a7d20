-- ===== src/Ledger/Validation/Difficulty.antt =====
-- Which blocks meet the difficulty (pkg/ledger/validation.go and utils.go).
use peerdns.Prelude.{ℕ, zero, suc, ◌≡◌, refl, true, [], ◌∷◌, arith, Bytes}
use peerdns.Types.Hash.{hash_size}
use peerdns.Types.Address.Text.{AllBytes}
use peerdns.Types.Block.{Block}
use peerdns.Ledger.Validation.{
  block_hash_meets_target, filled, calculate_target, validate_consensus_rules,
}

meets-filled : (h : Bytes) (n : ℕ) → AllBytes h → block_hash_meets_target h (filled n) ≡ true
unfolding block_hash_meets_target filled
meets-filled [] n a = refl
meets-filled (b ∷ h) zero a = refl
meets-filled (b ∷ h) (suc n) a = ground (arith, meets-filled h n a.1)

-- Every block whose hash consists of bytes meets the consensus rules, whatever its difficulty.
pub validate_consensus_rules_always :
    (b : Block) → AllBytes b.hash → validate_consensus_rules b ≡ true
unfolding validate_consensus_rules calculate_target
validate_consensus_rules_always b a = meets-filled b.hash hash_size a
