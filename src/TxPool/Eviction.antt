-- ===== src/TxPool/Eviction.antt =====
-- What `evictTransaction` and `AddTransaction` do with a full pool (pkg/txpool/pool.go).
use peerdns.Prelude.{
  ◌≡◌, ◌≤◌, refl, ◌⊎◌, inl, inr, true, false, none, some, [], ◌∷◌, arith, Bool-cases, hex, beq_iff,
  length, beq,
}
use peerdns.Prelude.Int.{ℤ, pos, ◌≤ℤ◌, ltb_ℤ, leb_ℤ}
use peerdns.Prelude.Map.{Map, lookup, has, insert, delete, Distinct}
use peerdns.Types.Hash.{Hash, zero_hash, is_zero_hash, string}
use peerdns.Types.Transaction.{Transaction}
use peerdns.Wire.{replicate_zero}
use peerdns.TxPool.{
  TxPool, oldest_of, max_int64, evict, evict_transaction, store, store_evicted, add_transaction,
}

-- No entry is older than the time.
abbrev pub AllFrom : Map Transaction → ℤ → Type 0
AllFrom txs t = (k : Hash) (tx : Transaction) → lookup k txs ≡ some tx → t ≤ℤ tx.timestamp

-- An entry of the pool of which no other is older.
pub record IsOldest (txs : Map Transaction) (id : Hash) (old : Transaction) : Type 0 where
  pub found : lookup id txs ≡ some old
  pub least : AllFrom txs old.timestamp

-- What the loop finds: its start, or an oldest entry before the time at which it started.
abbrev pub Found : Map Transaction → Hash → ℤ → Hash → Type 0
Found txs o t r =
    ((r ≡ o) × AllFrom txs t)
    ⊎ ((old : Transaction) × IsOldest txs r old × (ltb_ℤ old.timestamp t ≡ true))

AllFrom-cons :
    (txs : Map Transaction) (id : Hash) (x : Transaction) (t : ℤ)
    → t ≤ℤ x.timestamp
    → AllFrom txs t
    → AllFrom ((id, x) ∷ txs) t
unfolding lookup
AllFrom-cons txs id x t h all k tx e = ground (arith, beq_iff id k, all k tx)

first_IsOldest :
    (txs : Map Transaction) (id : Hash) (x : Transaction)
    → AllFrom txs x.timestamp
    → IsOldest ((id, x) ∷ txs) id x
unfolding lookup
first_IsOldest txs id x all = record {
  found = ground (arith, beq_iff id id);
  least = AllFrom-cons txs id x x.timestamp (omega arith) all;
}

later_IsOldest :
    (txs : Map Transaction) (id r : Hash) (x old : Transaction)
    → lookup id txs ≡ none
    → IsOldest txs r old
    → old.timestamp ≤ℤ x.timestamp
    → IsOldest ((id, x) ∷ txs) r old
unfolding lookup
later_IsOldest txs id r x old new e h = record {
  found = ground (arith, beq_iff id r, e.found, new);
  least = AllFrom-cons txs id x old.timestamp h e.least;
}

Found-cons_older :
    (txs : Map Transaction) (id r : Hash) (x : Transaction) (o : Hash) (t : ℤ)
    → lookup id txs ≡ none
    → ltb_ℤ x.timestamp t ≡ true
    → Found txs id x.timestamp r
    → Found ((id, x) ∷ txs) o t r
Found-cons_older txs id r x o t new lt (inl (e, all)) =
    rw e (inr (x, first_IsOldest txs id x all, lt))
Found-cons_older txs id r x o t new lt (inr (old, e, before)) =
    inr (old, later_IsOldest txs id r x old new e (ground arith), ground arith)

Found-cons_younger :
    (txs : Map Transaction) (id r : Hash) (x : Transaction) (o : Hash) (t : ℤ)
    → lookup id txs ≡ none
    → ltb_ℤ x.timestamp t ≡ false
    → Found txs o t r
    → Found ((id, x) ∷ txs) o t r
Found-cons_younger txs id r x o t new ge (inl (e, all)) =
    inl (e, AllFrom-cons txs id x t (ground arith) all)
Found-cons_younger txs id r x o t new ge (inr (old, e, before)) =
    inr (old, later_IsOldest txs id r x old new e (ground arith), before)

pub oldest_of-Found :
    (txs : Map Transaction) (o : Hash) (t : ℤ) → Distinct txs → Found txs o t (oldest_of txs o t)
unfolding oldest_of lookup
oldest_of-Found [] o t d = inl (refl, λ k tx e. absurd (ground arith))
oldest_of-Found ((id, x) ∷ txs) o t d = elim (Bool-cases (ltb_ℤ x.timestamp t)) [
  | inl lt ↦
      rw (lt, oldest_of)
        (Found-cons_older txs id (oldest_of txs id x.timestamp) x o t d.0 lt
          (oldest_of-Found txs id x.timestamp d.1))
  | inr ge ↦
      rw (ge, oldest_of)
        (Found-cons_younger txs id (oldest_of txs o t) x o t d.0 ge (oldest_of-Found txs o t d.1))
]

-- What the clock and the hash function give: a time before the end of the int64 range, under an
-- identifier that is not the zero hash or the empty string.
pub record IsStamped (txs : Map Transaction) : Type 0 where
  pub before_max :
      (k : Hash) (tx : Transaction) → lookup k txs ≡ some tx → ltb_ℤ tx.timestamp max_int64 ≡ true
  pub nonzero : (k : Hash) → has k txs ≡ true → is_zero_hash k ≡ false

hex_nonempty : (k : Hash) → is_zero_hash k ≡ false → beq (string k) [] ≡ false
unfolding is_zero_hash string hex beq replicate_zero
hex_nonempty [] h = ground arith
hex_nonempty (b ∷ k) h = refl

some_entry :
    (txs : Map Transaction)
    → 1 ≤ length txs
    → (k : Hash) × (tx : Transaction) × (lookup k txs ≡ some tx)
unfolding lookup
some_entry [] h = absurd (omega arith)
some_entry ((k, tx) ∷ txs) h = (k, tx, ground (arith, beq_iff k k))

-- In a pool with an entry the loop finds an oldest one.
oldest_of-IsOldest :
    (txs : Map Transaction)
    → Distinct txs
    → IsStamped txs
    → 1 ≤ length txs
    → (old : Transaction) × IsOldest txs (oldest_of txs zero_hash max_int64) old
oldest_of-IsOldest txs d s h = elim (oldest_of-Found txs zero_hash max_int64 d) [
  | inl (e, all) ↦
      let (k, tx, found) = some_entry txs h in
      absurd (ground (arith, all k tx found, s.before_max k tx found))
  | inr (old, e, before) ↦ (old, e)
]

-- An identifier that is in the pool is evicted, and reported as what it is.
pub evict_present :
    (id : Hash) (tp : TxPool)
    → is_zero_hash id ≡ false
    → evict id tp ≡ (id, record tp { transactions = delete id tp.transactions })
unfolding evict
evict_present id tp h = ground (arith, hex_nonempty id h)

store_evicted_nonzero :
    (now : ℤ) (tx : Transaction) (id : Hash) (tp : TxPool)
    → is_zero_hash id ≡ false
    → store_evicted now tx (id, tp) ≡ (none, store now tx tp)
unfolding store_evicted
store_evicted_nonzero now tx id tp h = ground arith

add_transaction-store_evicted :
    (now : ℤ) (tx : Transaction) (tp : TxPool)
    → tp.validate tx ≡ true
    → has tx.id tp.transactions ≡ false
    → leb_ℤ tp.max_size (pos (length tp.transactions)) ≡ true
    → add_transaction now tx tp ≡ store_evicted now tx (evict_transaction tp)
unfolding add_transaction
add_transaction-store_evicted now tx tp valid new full = ground arith

-- A full pool that has an entry makes room: a valid transaction with a new identifier enters with
-- the time of now, and the pool loses one entry of which no other is older, and nothing else. The
-- entries were stamped before the end of the int64 range, and no identifier is the zero hash.
pub add_transaction_full :
    (now : ℤ) (tx : Transaction) (tp : TxPool)
    → Distinct tp.transactions
    → IsStamped tp.transactions
    → 1 ≤ length tp.transactions
    → leb_ℤ tp.max_size (pos (length tp.transactions)) ≡ true
    → tp.validate tx ≡ true
    → has tx.id tp.transactions ≡ false
    → (id : Hash) × (old : Transaction) × IsOldest tp.transactions id old
      × (add_transaction now tx tp ≡ (
        none,
        record tp {
          transactions = insert tx.id (record tx { timestamp = now }) (delete id tp.transactions);
        },
      ))
unfolding store evict_transaction
add_transaction_full now tx tp d s h full valid new =
    let (old, e) = oldest_of-IsOldest tp.transactions d s h in
    let id = oldest_of tp.transactions zero_hash max_int64 in
    let nz : is_zero_hash id ≡ false = s.nonzero id (ground (arith, e.found)) in
    (
      id,
      old,
      e,
      rw
          (
            add_transaction-store_evicted now tx tp valid new full,
            evict_transaction,
            evict_present id tp nz,
          )
          (store_evicted_nonzero now tx id (record tp { transactions = delete id tp.transactions })
            nz),
    )
