-- ===== src/TxPool/Bounds.antt =====
-- The size of the pool through any sequence of its operations (pkg/txpool/pool.go).
use peerdns.Prelude.{
  ℕ, ◌≡◌, ◌≤◌, ◌<◌, refl, Bool, true, Option, some, List, [], ◌∷◌, arith, Bool-cases, ◌⊎◌, inl, inr,
  length, length-keep-le, not, beq,
}
use peerdns.Prelude.Int.{ℤ, pos, leb_ℤ}
use peerdns.Prelude.Map.{
  Map, has, Distinct, delete, insert-Distinct, delete-Distinct, keep-Distinct, length-insert,
  length-delete-le, length-delete_present,
}
use peerdns.Types.Hash.{Hash, zero_hash, is_zero_hash, string}
use peerdns.Types.Transaction.{Transaction}
use peerdns.Wire.{replicate_zero}
use peerdns.TxPool.{
  pool_full, TxPool, new_tx_pool_with_options, oldest_of, max_int64, evict, evict_transaction,
  store, store_evicted, add_transaction, remove_transactions, cleanup, is_expired, size,
  set_tx_expiry,
}
use peerdns.TxPool.Eviction.{oldest_of-Found}

-- The operations that change a pool of a fixed size, with the clock's reading where they ask it.
pub data Operation : Type 0 where
  adds : ℤ → Transaction → Operation
  removes : List Hash → Operation
  sets_expiry : ℤ → Operation
  cleans_up : ℤ → Operation

unfoldable pub perform : Operation → TxPool → TxPool
perform (adds now tx) tp = (add_transaction now tx tp).1
perform (removes ids) tp = remove_transactions ids tp
perform (sets_expiry expiry) tp = set_tx_expiry expiry tp
perform (cleans_up now) tp = cleanup now tp

unfoldable pub perform_all : List Operation → TxPool → TxPool
perform_all [] tp = tp
perform_all (o ∷ os) tp = perform_all os (perform o tp)

pub record IsBounded (max : ℕ) (tp : TxPool) : Type 0 where
  pub same_size : tp.max_size ≡ pos max
  pub distinct : Distinct tp.transactions
  pub bounded : length tp.transactions ≤ max

delete-IsBounded :
    (max : ℕ) (id : Hash) (tp : TxPool)
    → IsBounded max tp
    → IsBounded max (record tp { transactions = delete id tp.transactions })
delete-IsBounded max id tp b = record {
  same_size = b.same_size;
  distinct = delete-Distinct id tp.transactions b.distinct;
  bounded = omega (arith, length-delete-le id tp.transactions, b.bounded);
}

store-IsBounded :
    (max : ℕ) (now : ℤ) (tx : Transaction) (tp : TxPool)
    → IsBounded max tp
    → length tp.transactions < max
    → IsBounded max (store now tx tp)
unfolding store
store-IsBounded max now tx tp b room = record {
  same_size = b.same_size;
  distinct = insert-Distinct tx.id (record tx { timestamp = now }) tp.transactions b.distinct;
  bounded = ground (arith, length-insert tx.id (record tx { timestamp = now }) tp.transactions);
}

zero_hash-is_zero : is_zero_hash zero_hash ≡ true
unfolding is_zero_hash zero_hash replicate_zero beq
zero_hash-is_zero = refl

pub evict-cases :
    (id : Hash) (tp : TxPool)
    → (evict id tp ≡ (id, record tp { transactions = delete id tp.transactions }))
      ⊎ (evict id tp ≡ (zero_hash, tp))
unfolding evict
evict-cases id tp = elim (Bool-cases (beq (string id) [])) [
  | inl e ↦ inr (rw e refl)
  | inr e ↦ inl (rw e refl)
]

store_evicted_zero :
    (now : ℤ) (tx : Transaction) (id : Hash) (tp : TxPool)
    → is_zero_hash id ≡ true
    → store_evicted now tx (id, tp) ≡ (some pool_full, tp)
unfolding store_evicted
store_evicted_zero now tx id tp h = ground arith

-- Where something was deleted, there is room.
store_evicted-IsBounded :
    (max : ℕ) (now : ℤ) (tx : Transaction) (id : Hash) (tp : TxPool)
    → IsBounded max tp
    → ((is_zero_hash id ≡ true) ⊎ (has id tp.transactions ≡ true))
    → IsBounded max
        (store_evicted now tx (id, record tp { transactions = delete id tp.transactions })).1
unfolding store_evicted
store_evicted-IsBounded max now tx id tp b h = elim (Bool-cases (is_zero_hash id)) [
  | inl z ↦ rw z (delete-IsBounded max id tp b)
  | inr nz ↦ rw nz (
      store-IsBounded max now tx (record tp { transactions = delete id tp.transactions })
        (delete-IsBounded max id tp b)
        (ground (arith, length-delete_present id tp.transactions, b.bounded)))
]

oldest_of-is_zero_or_has :
    (txs : Map Transaction)
    → Distinct txs
    → (is_zero_hash (oldest_of txs zero_hash max_int64) ≡ true)
      ⊎ (has (oldest_of txs zero_hash max_int64) txs ≡ true)
oldest_of-is_zero_or_has txs d = elim (oldest_of-Found txs zero_hash max_int64 d) [
  | inl (e, all) ↦ inl (rw e zero_hash-is_zero)
  | inr (old, e, before) ↦ inr (rw e.found refl)
]

evicting-IsBounded :
    (max : ℕ) (now : ℤ) (tx : Transaction) (tp : TxPool)
    → IsBounded max tp
    → IsBounded max (store_evicted now tx (evict_transaction tp)).1
unfolding evict_transaction
evicting-IsBounded max now tx tp b =
    let id = oldest_of tp.transactions zero_hash max_int64 in
    elim (evict-cases id tp) [
      | inl e ↦
          rw (evict_transaction, e)
            (store_evicted-IsBounded max now tx id tp b
              (oldest_of-is_zero_or_has tp.transactions b.distinct))
      | inr e ↦
          rw (evict_transaction, e, store_evicted_zero now tx zero_hash tp zero_hash-is_zero) b
    ]

add_transaction-IsBounded :
    (max : ℕ) (now : ℤ) (tx : Transaction) (tp : TxPool)
    → IsBounded max tp
    → IsBounded max (add_transaction now tx tp).1
unfolding add_transaction
add_transaction-IsBounded max now tx tp b = elim (Bool-cases (tp.validate tx)) [
  | inr e ↦ rw e b
  | inl e ↦ elim (Bool-cases (has tx.id tp.transactions)) [
    | inl k ↦ rw (e, k) b
    | inr k ↦ elim (Bool-cases (leb_ℤ tp.max_size (pos (length tp.transactions)))) [
      | inl full ↦ rw (e, k, full) (evicting-IsBounded max now tx tp b)
      | inr room ↦ rw (e, k, room) (store-IsBounded max now tx tp b (ground (arith, b.same_size)))
    ]
  ]
]

remove_transactions-IsBounded :
    (max : ℕ) (ids : List Hash) (tp : TxPool)
    → IsBounded max tp
    → IsBounded max (remove_transactions ids tp)
unfolding remove_transactions
remove_transactions-IsBounded max [] tp b = b
remove_transactions-IsBounded max (id ∷ ids) tp b =
    remove_transactions-IsBounded max ids (record tp { transactions = delete id tp.transactions })
      (delete-IsBounded max id tp b)

cleanup-IsBounded :
    (max : ℕ) (now : ℤ) (tp : TxPool) → IsBounded max tp → IsBounded max (cleanup now tp)
unfolding cleanup
cleanup-IsBounded max now tp b =
    let live : Transaction → Bool = λ tx. not (is_expired now tp.tx_expiry tx) in
    record {
      same_size = b.same_size;
      distinct = keep-Distinct live tp.transactions b.distinct;
      bounded = omega (arith, length-keep-le (λ e. live e.1) tp.transactions, b.bounded);
    }

perform-IsBounded :
    (max : ℕ) (o : Operation) (tp : TxPool) → IsBounded max tp → IsBounded max (perform o tp)
unfolding perform set_tx_expiry
perform-IsBounded max (adds now tx) tp b = add_transaction-IsBounded max now tx tp b
perform-IsBounded max (removes ids) tp b = remove_transactions-IsBounded max ids tp b
perform-IsBounded max (sets_expiry expiry) tp b = record {
  same_size = b.same_size;
  distinct = b.distinct;
  bounded = b.bounded;
}
perform-IsBounded max (cleans_up now) tp b = cleanup-IsBounded max now tp b

perform_all-IsBounded :
    (max : ℕ) (os : List Operation) (tp : TxPool)
    → IsBounded max tp
    → IsBounded max (perform_all os tp)
unfolding perform_all
perform_all-IsBounded max [] tp b = b
perform_all-IsBounded max (o ∷ os) tp b =
    perform_all-IsBounded max os (perform o tp) (perform-IsBounded max o tp b)

-- A new pool stays within its maximum size through any additions, removals, cleanups and changes
-- of the expiry.
pub perform_all-size-le :
    (max : ℕ) (expiry interval : ℤ) (validate : Option (Transaction → Bool)) (os : List Operation)
    → size (perform_all os (new_tx_pool_with_options (pos max) expiry interval validate)) ≤ max
unfolding size new_tx_pool_with_options
perform_all-size-le max expiry interval validate os =
    (perform_all-IsBounded max os (new_tx_pool_with_options (pos max) expiry interval validate)
      (record { same_size = refl; distinct = tt; bounded = omega arith })).bounded
