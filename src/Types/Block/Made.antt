-- ===== src/Types/Block/Made.antt =====
-- The blocks that `NewBlock` makes (pkg/types/block.go).
use mathlib.Core.Path.{subst}
use peerdns.Prelude.{ℕ, ◌≡◌, ◌≢◌, refl, some, List, [], ◌∷◌, arith, Bytes, some_equal}
use peerdns.Prelude.Int.{ℤ}
use peerdns.Types.Hash.{Hash, Address}
use peerdns.Types.Transaction.{Transaction}
use peerdns.Types.Block.{Block, new_block, compute_hash, hash_contents, compute_merkle_root}

pub record IsMade (sha256 : Bytes → Hash) (now : ℤ) (index : ℕ) (previous_hash : Hash)
    (txs : List Transaction) (b : Block) : Type 0 where
  pub nonempty : txs ≢ []
  pub same_transactions : b.transactions ≡ txs
  pub same_index : b.index ≡ index
  pub same_previous_hash : b.previous_hash ≡ previous_hash
  pub same_timestamp : b.timestamp ≡ now
  pub own_hash : b.hash ≡ compute_hash sha256 b
  pub own_merkle_root : b.merkle_root ≡ compute_merkle_root sha256 b.transactions

pub new_block-IsMade :
    (sha256 : Bytes → Hash) (now : ℤ) (index : ℕ) (previous_hash : Hash) (txs : List Transaction)
    (validator : Address) (difficulty : ℕ) (b : Block)
    → new_block sha256 now index previous_hash txs validator difficulty ≡ some b
    → IsMade sha256 now index previous_hash txs b
unfolding new_block compute_hash hash_contents
new_block-IsMade sha256 now index previous_hash [] validator difficulty b h =
    absurd (ground (arith, h))
new_block-IsMade sha256 now index previous_hash (tx ∷ txs) validator difficulty b h =
    subst (IsMade sha256 now index previous_hash (tx ∷ txs)) (some_equal h) (record {
      nonempty = λ e. absurd (ground (arith, e));
      same_transactions = refl;
      same_index = refl;
      same_previous_hash = refl;
      same_timestamp = refl;
      own_hash = refl;
      own_merkle_root = refl;
    })
