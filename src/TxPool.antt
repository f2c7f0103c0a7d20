-- ===== src/TxPool.antt =====
-- pkg/txpool/pool.go: the pool of pending transactions. One call runs at a time; a pool's entries
-- stand in the order in which `range` visits them.
pub mod Eviction
pub mod Ordering
pub mod Bounds
pub mod Expiry
pub mod Tests
use peerdns.Prelude.{
  ℕ, ◌-◌, ◌^◌, Bool, true, false, not, Option, none, some, List, [], ◌∷◌, ltb, leb, ◌==◌,
  if◌then◌else◌, Bytes, beq, length, take,
}
use peerdns.Prelude.Int.{ℤ, pos, negsuc, ltb_ℤ, leb_ℤ, ◌-ℤ◌, to_uint64, to_int64}
use peerdns.Prelude.Map.{Map, lookup, has, insert, delete, values, keep_values}
use peerdns.Types.Hash.{Hash, zero_hash, is_zero_hash, string}
use peerdns.Types.Transaction.{Transaction}

-- Durations are in nanoseconds. `validate` tells whether `validateTransaction` returns no error.
pub record TxPool : Type 0 where
  pub transactions : Map Transaction
  pub max_size : ℤ
  pub tx_expiry : ℤ
  pub validate : Transaction → Bool
  pub cleanup_interval : ℤ

abbrev pub default_max_pool_size : ℤ
default_max_pool_size = pos 1000

abbrev pub default_tx_expiry : ℤ
default_tx_expiry = pos 600_000_000_000

abbrev pub default_cleanup_interval : ℤ
default_cleanup_interval = pos 60_000_000_000

-- The errors of `AddTransaction`.
pub data AddError : Type 0 where
  invalid_transaction already_exists pool_full : AddError

unfoldable pub validate_transaction_default : Transaction → Bool
validate_transaction_default tx = not (tx.amount == 0)

unfoldable pub new_tx_pool : TxPool
new_tx_pool = record {
  transactions = [];
  max_size = default_max_pool_size;
  tx_expiry = default_tx_expiry;
  validate = validate_transaction_default;
  cleanup_interval = default_cleanup_interval;
}

-- `none` is a nil function.
unfoldable pub new_tx_pool_with_options : ℤ → ℤ → ℤ → Option (Transaction → Bool) → TxPool
new_tx_pool_with_options max_size tx_expiry cleanup_interval validate_fn = record {
  transactions = [];
  max_size = max_size;
  tx_expiry = tx_expiry;
  validate = elim validate_fn [ none ↦ validate_transaction_default | some f ↦ f ];
  cleanup_interval = cleanup_interval;
}

unfoldable pub set_max_size : ℤ → TxPool → TxPool
set_max_size max tp = record tp { max_size = max }

unfoldable pub set_tx_expiry : ℤ → TxPool → TxPool
set_tx_expiry expiry tp = record tp { tx_expiry = expiry }

-- `math.MaxInt64`
abbrev pub max_int64 : ℤ
max_int64 = pos (2 ^ 63 - 1)

-- The loop of `evictTransaction`: the identifier and the timestamp of the oldest entry so far.
unfoldable pub oldest_of : Map Transaction → Hash → ℤ → Hash
oldest_of [] oldest timestamp = oldest
oldest_of ((id, tx) ∷ txs) oldest timestamp = elim (ltb_ℤ tx.timestamp timestamp) [
  | true ↦ oldest_of txs id tx.timestamp
  | false ↦ oldest_of txs oldest timestamp
]

unfoldable pub evict : Hash → TxPool → Hash × TxPool
evict oldest tp =
    if not (beq (string oldest) [])
    then (oldest, record tp { transactions = delete oldest tp.transactions })
    else (zero_hash, tp)

unfoldable pub evict_transaction : TxPool → Hash × TxPool
evict_transaction tp = evict (oldest_of tp.transactions zero_hash max_int64) tp

-- The transaction enters with the time of now, in nanoseconds.
unfoldable pub store : ℤ → Transaction → TxPool → TxPool
store now tx tp = record tp {
  transactions = insert tx.id (record tx { timestamp = now }) tp.transactions;
}

-- What a full pool does with a new transaction, from the result of the eviction.
unfoldable pub store_evicted : ℤ → Transaction → Hash × TxPool → Option AddError × TxPool
store_evicted now tx (evicted, tp) =
    if is_zero_hash evicted then (some pool_full, tp) else (none, store now tx tp)

-- `AddTransaction`, with `none` for no error.
unfoldable pub add_transaction : ℤ → Transaction → TxPool → Option AddError × TxPool
add_transaction now tx tp =
    if not (tp.validate tx)
    then (some invalid_transaction, tp)
    else if has tx.id tp.transactions
    then (some already_exists, tp)
    else if leb_ℤ tp.max_size (pos (length tp.transactions))
    then store_evicted now tx (evict_transaction tp)
    else (none, store now tx tp)

-- `sort.Slice` with a comparison of the elements. The order among equals is not determined.
unfoldable pub insert_by :
    (Transaction → Transaction → Bool) → Transaction → List Transaction → List Transaction
insert_by less tx [] = tx ∷ []
insert_by less tx (y ∷ ys) =
    let rest = insert_by less tx ys in if less y tx then y ∷ rest else tx ∷ y ∷ ys

unfoldable pub sort_by : (Transaction → Transaction → Bool) → List Transaction → List Transaction
sort_by less [] = []
sort_by less (tx ∷ txs) = insert_by less tx (sort_by less txs)

unfoldable pub sort_transactions_by_nonce_asc : List Transaction → List Transaction
sort_transactions_by_nonce_asc txs = sort_by (λ a b. ltb a.nonce b.nonce) txs

unfoldable pub sort_transactions_by_fee_desc : List Transaction → List Transaction
sort_transactions_by_fee_desc txs = sort_by (λ a b. ltb b.fee a.fee) txs

-- `txs[:max]` with `max` cut to the length; `none` is the panic of a negative bound.
unfoldable pub first_of : ℤ → List Transaction → Option (List Transaction)
first_of (pos max) txs = some (take (if ltb (length txs) max then length txs else max) txs)
first_of (negsuc n) txs = none

unfoldable pub get_transactions : ℤ → TxPool → Option (List Transaction)
get_transactions max tp = first_of max (sort_transactions_by_nonce_asc (values tp.transactions))

unfoldable pub remove_transaction : Hash → TxPool → TxPool
remove_transaction id tp = record tp { transactions = delete id tp.transactions }

unfoldable pub remove_transactions : List Hash → TxPool → TxPool
remove_transactions [] tp = tp
remove_transactions (id ∷ ids) tp =
    remove_transactions ids (record tp { transactions = delete id tp.transactions })

unfoldable pub get_transaction : Hash → TxPool → Option Transaction
get_transaction id tp = lookup id tp.transactions

unfoldable pub size : TxPool → ℕ
size tp = length tp.transactions

-- `now-tx.Timestamp > tp.txExpiry.Nanoseconds()`, where the int64 difference may wrap.
unfoldable pub is_expired : ℤ → ℤ → Transaction → Bool
is_expired now expiry tx = ltb_ℤ expiry (to_int64 (to_uint64 (now -ℤ tx.timestamp)))

-- One tick of the cleanup loop.
unfoldable pub cleanup : ℤ → TxPool → TxPool
cleanup now tp = record tp {
  transactions = keep_values (λ tx. not (is_expired now tp.tx_expiry tx)) tp.transactions;
}
