-- ===== src/TxPool/Tests.antt =====
-- The transaction pool at work, and instances of the theorems (pkg/txpool/pool.go).
use peerdns.Prelude.{ℕ, ◌≡◌, ◌≤◌, refl, none, some, List, [], ◌∷◌, arith, beq, beq_iff, hex}
use peerdns.Prelude.Int.{ℤ, pos, ◌-ℤ◌}
use peerdns.Prelude.Map.{lookup, insert, delete, Distinct}
use peerdns.Wire.{replicate_zero}
use peerdns.Types.Hash.{Hash, is_zero_hash, zero_hash, string}
use peerdns.Types.Transaction.{Transaction}
use peerdns.TxPool.{
  TxPool, new_tx_pool_with_options, validate_transaction_default, oldest_of, evict,
  evict_transaction, store, store_evicted, add_transaction, insert_by, sort_by,
  sort_transactions_by_nonce_asc, first_of, get_transactions, remove_transactions, get_transaction,
  size, is_expired, cleanup, set_tx_expiry,
}
use peerdns.TxPool.Eviction.{IsOldest, IsStamped, add_transaction_full}
use peerdns.TxPool.Bounds.{
  Operation, adds, removes, sets_expiry, cleans_up, perform, perform_all, perform_all-size-le,
}

abbrev payment : ℕ → ℕ → ℤ → Transaction
payment id nonce timestamp = record {
  id = id ∷ [];
  sender = 1 ∷ [];
  recipient = 2 ∷ [];
  amount = 50;
  fee = 1;
  nonce = nonce;
  timestamp = timestamp;
  signature = [];
  signature_type = [];
  payload = [];
}

-- Two entries of two, the second of them the older one, with a lifetime of 100.
abbrev full_pool : TxPool
full_pool = record {
  transactions = (7 ∷ [], payment 7 5 (pos 30)) ∷ (8 ∷ [], payment 8 4 (pos 20)) ∷ [];
  max_size = pos 2;
  tx_expiry = pos 100;
  validate = validate_transaction_default;
  cleanup_interval = pos 10;
}

program : Unit {0}
unfolding validate_transaction_default oldest_of evict evict_transaction store store_evicted
    add_transaction insert_by sort_by sort_transactions_by_nonce_asc first_of get_transactions
    remove_transactions get_transaction size is_expired cleanup set_tx_expiry
    new_tx_pool_with_options perform perform_all lookup insert delete is_zero_hash zero_hash string
    replicate_zero beq hex ◌-ℤ◌
program = tt

evicts_oldest : add_transaction (pos 40) (payment 9 6 (pos 0)) full_pool ≡ (
  none,
  record full_pool {
    transactions = (7 ∷ [], payment 7 5 (pos 30)) ∷ (9 ∷ [], payment 9 6 (pos 40)) ∷ [];
  },
)
unfolding program
evicts_oldest = refl

lowest_nonce_first : get_transactions (pos 1) full_pool ≡ some (payment 8 4 (pos 20) ∷ [])
unfolding program
lowest_nonce_first = refl

full_pool-Distinct : Distinct full_pool.transactions
unfolding program
full_pool-Distinct = (refl, (refl, tt))

full_pool-IsStamped : IsStamped full_pool.transactions
unfolding program
full_pool-IsStamped = record {
  before_max = λ k tx found. ground (arith, beq_iff (7 ∷ []) k, beq_iff (8 ∷ []) k, found);
  nonzero = λ k h. ground (arith, beq_iff (7 ∷ []) k, beq_iff (8 ∷ []) k, h);
}

add_transaction_full_example :
    (id : Hash) × (old : Transaction) × IsOldest full_pool.transactions id old
    × (add_transaction (pos 40) (payment 9 6 (pos 0)) full_pool ≡ (
      none,
      record full_pool {
        transactions = insert (9 ∷ []) (payment 9 6 (pos 40)) (delete id full_pool.transactions);
      },
    ))
unfolding program
add_transaction_full_example =
    add_transaction_full (pos 40) (payment 9 6 (pos 0)) full_pool full_pool-Distinct
      full_pool-IsStamped (omega arith) refl refl refl

abbrev busy_day : List Operation
busy_day =
    adds (pos 1) (payment 7 5 (pos 0))
    ∷ adds (pos 2) (payment 8 4 (pos 0))
    ∷ adds (pos 3) (payment 9 3 (pos 0))
    ∷ removes ((8 ∷ []) ∷ [])
    ∷ sets_expiry (pos 1)
    ∷ cleans_up (pos 5)
    ∷ []

perform_all-size-le_example :
    size (perform_all busy_day (new_tx_pool_with_options (pos 2) (pos 100) (pos 10) none)) ≤ 2
perform_all-size-le_example = perform_all-size-le 2 (pos 100) (pos 10) none busy_day
