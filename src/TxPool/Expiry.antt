-- ===== src/TxPool/Expiry.antt =====
-- How long an added transaction stays (pkg/txpool/pool.go).
use peerdns.Prelude.{
  ℕ, ◌-◌, ◌^◌, ◌≡◌, ◌≤◌, ◌<◌, refl, ◌∙◌, not, Option, none, some, arith, if◌then◌else◌, Bool-cases,
  inl, inr, length, beq_refl,
}
use peerdns.Prelude.Int.{ℤ, pos, ltb_ℤ, leb_ℤ, ◌-ℤ◌}
use peerdns.Prelude.Map.{
  lookup, has, Distinct, delete, lookup-insert, lookup-keep, insert-Distinct, delete-Distinct,
}
use peerdns.Types.Hash.{Hash, zero_hash, is_zero_hash}
use peerdns.Types.Transaction.{Transaction}
use peerdns.TxPool.{
  TxPool, AddError, evict_transaction, store, store_evicted, add_transaction, cleanup, is_expired,
  oldest_of, max_int64, get_transaction,
}
use peerdns.TxPool.Bounds.{evict-cases}

abbrev pub stamped : ℤ → Transaction → Transaction
stamped now tx = record tx { timestamp = now }

record IsStored (now : ℤ) (tx : Transaction) (expiry : ℤ) (tp : TxPool) : Type 0 where
  found : lookup tx.id tp.transactions ≡ some (stamped now tx)
  distinct : Distinct tp.transactions
  same_expiry : tp.tx_expiry ≡ expiry

-- What holds of the pool if the call succeeded.
abbrev Stored : ℤ → Transaction → ℤ → Option AddError × TxPool → Type 0
Stored now tx expiry r = r.0 ≡ none → IsStored now tx expiry r.1

store-IsStored :
    (now : ℤ) (tx : Transaction) (tp : TxPool)
    → Distinct tp.transactions
    → IsStored now tx tp.tx_expiry (store now tx tp)
unfolding store
store-IsStored now tx tp d = record {
  found =
      ground (arith, lookup-insert tx.id tx.id (stamped now tx) tp.transactions, beq_refl tx.id);
  distinct = insert-Distinct tx.id (stamped now tx) tp.transactions d;
  same_expiry = refl;
}

store_evicted-Stored :
    (now : ℤ) (tx : Transaction) (id : Hash) (tp : TxPool)
    → Distinct tp.transactions
    → Stored now tx tp.tx_expiry (store_evicted now tx (id, tp))
unfolding store_evicted
store_evicted-Stored now tx id tp d = elim (Bool-cases (is_zero_hash id)) [
  | inl z ↦ rw z (λ e. absurd (ground arith))
  | inr nz ↦ rw nz (λ e. store-IsStored now tx tp d)
]

evicting-Stored :
    (now : ℤ) (tx : Transaction) (tp : TxPool)
    → Distinct tp.transactions
    → Stored now tx tp.tx_expiry (store_evicted now tx (evict_transaction tp))
unfolding evict_transaction
evicting-Stored now tx tp d =
    elim (evict-cases (oldest_of tp.transactions zero_hash max_int64) tp) [
      | inl e ↦
          rw (evict_transaction, e)
            (store_evicted-Stored now tx (oldest_of tp.transactions zero_hash max_int64)
              (record tp {
                transactions =
                    delete (oldest_of tp.transactions zero_hash max_int64) tp.transactions;
              })
              (delete-Distinct (oldest_of tp.transactions zero_hash max_int64) tp.transactions d))
      | inr e ↦ rw (evict_transaction, e) (store_evicted-Stored now tx zero_hash tp d)
    ]

add_transaction-Stored :
    (now : ℤ) (tx : Transaction) (tp : TxPool)
    → Distinct tp.transactions
    → Stored now tx tp.tx_expiry (add_transaction now tx tp)
unfolding add_transaction
add_transaction-Stored now tx tp d = elim (Bool-cases (tp.validate tx)) [
  | inr e ↦ rw e (λ x. absurd (ground arith))
  | inl e ↦ elim (Bool-cases (has tx.id tp.transactions)) [
    | inl k ↦ rw (e, k) (λ x. absurd (ground arith))
    | inr k ↦ elim (Bool-cases (leb_ℤ tp.max_size (pos (length tp.transactions)))) [
      | inl full ↦ rw (e, k, full) (evicting-Stored now tx tp d)
      | inr room ↦ rw (e, k, room) (λ x. store-IsStored now tx tp d)
    ]
  ]
]

is_expired-stamped :
    (t now : ℕ) (expiry : ℤ) (tx : Transaction)
    → t ≤ now
    → now < 2 ^ 63
    → is_expired (pos now) expiry (stamped (pos t) tx) ≡ ltb_ℤ expiry (pos (now - t))
unfolding is_expired ◌-ℤ◌
is_expired-stamped t now expiry tx h k = ground arith

lookup-cleanup :
    (id : Hash) (now : ℤ) (tx : Transaction) (tp : TxPool)
    → Distinct tp.transactions
    → lookup id tp.transactions ≡ some tx
    → get_transaction id (cleanup now tp)
      ≡ (if is_expired now tp.tx_expiry tx then none else some tx)
unfolding get_transaction cleanup
lookup-cleanup id now tx tp d found =
    let e = lookup-keep (λ tx. not (is_expired now tp.tx_expiry tx)) id tp.transactions d in
    rw e (rw found (ground arith))

-- A transaction that was added at a time `t` is in the pool, with that time, after a cleanup at a
-- later time exactly if no more than the expiry lies between; the times are those of a clock that
-- has not reached the end of the int64 range.
pub cleanup-add_transaction :
    (t now : ℕ) (tx : Transaction) (tp after : TxPool)
    → Distinct tp.transactions
    → add_transaction (pos t) tx tp ≡ (none, after)
    → t ≤ now
    → now < 2 ^ 63
    → get_transaction tx.id (cleanup (pos now) after)
      ≡ (if ltb_ℤ tp.tx_expiry (pos (now - t)) then none else some (stamped (pos t) tx))
cleanup-add_transaction t now tx tp after d added h k =
    let s : IsStored (pos t) tx tp.tx_expiry after =
      rw added at (add_transaction-Stored (pos t) tx tp d) refl in
    lookup-cleanup tx.id (pos now) (stamped (pos t) tx) after s.distinct s.found
    ∙ rw (s.same_expiry, is_expired-stamped t now tp.tx_expiry tx h k) refl
