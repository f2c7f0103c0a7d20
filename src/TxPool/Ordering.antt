-- ===== src/TxPool/Ordering.antt =====
-- What `GetTransactions` returns (pkg/txpool/pool.go).
use peerdns.Prelude.{
  zero, suc, ap, ◌∙◌, ℕ, ◌≡◌, ◌≤◌, refl, Bool, none, some, List, [], ◌∷◌, arith, ltb, take, length,
  Bool-cases, inl, inr,
}
use mathlib.Core.List.{Perm}
use mathlib.Core.List.Perm
use peerdns.Prelude.Int.{pos, negsuc}
use peerdns.Prelude.Map.{values}
use peerdns.Types.Transaction.{Transaction}
use peerdns.TxPool.{
  TxPool, insert_by, sort_by, sort_transactions_by_nonce_asc, first_of, get_transactions,
}

-- Nonces from the bound on, none below the one before it.
abbrev pub Ascending : ℕ → List Transaction → Type 0
Ascending n [] = Unit
Ascending n (tx ∷ txs) = (n ≤ tx.nonce) × Ascending tx.nonce txs

abbrev less : Transaction → Transaction → Bool
less a b = ltb a.nonce b.nonce

insert_by-Ascending :
    (n : ℕ) (tx : Transaction) (txs : List Transaction)
    → n ≤ tx.nonce
    → Ascending n txs
    → Ascending n (insert_by less tx txs)
unfolding insert_by
insert_by-Ascending n tx [] h a = (h, tt)
insert_by-Ascending n tx (y ∷ ys) h a = ground (arith, insert_by-Ascending y.nonce tx ys)

sort_by-Ascending : (txs : List Transaction) → Ascending 0 (sort_by less txs)
unfolding sort_by
sort_by-Ascending [] = tt
sort_by-Ascending (tx ∷ txs) =
    insert_by-Ascending 0 tx (sort_by less txs) (omega arith) (sort_by-Ascending txs)

insert_by-Perm :
    (f : Transaction → Transaction → Bool) (tx : Transaction) (txs : List Transaction)
    → Perm (insert_by f tx txs) (tx ∷ txs)
unfolding insert_by
insert_by-Perm f tx [] = Perm.refl (tx ∷ [])
insert_by-Perm f tx (y ∷ ys) = elim (Bool-cases (f y tx)) [
  | inl e ↦
      rw (e, insert_by) (Perm.trans (Perm.cons y (insert_by-Perm f tx ys)) (Perm.swap tx y ys))
  | inr e ↦ rw (e, insert_by) (Perm.refl (tx ∷ y ∷ ys))
]

sort_by-Perm :
    (f : Transaction → Transaction → Bool) (txs : List Transaction) → Perm (sort_by f txs) txs
unfolding sort_by
sort_by-Perm f [] = Perm.refl []
sort_by-Perm f (tx ∷ txs) =
    Perm.trans (insert_by-Perm f tx (sort_by f txs)) (Perm.cons tx (sort_by-Perm f txs))

length-insert_by :
    (f : Transaction → Transaction → Bool) (tx : Transaction) (txs : List Transaction)
    → length (insert_by f tx txs) ≡ suc (length txs)
unfolding insert_by
length-insert_by f tx [] = refl
length-insert_by f tx (y ∷ ys) = ground (arith, length-insert_by f tx ys)

pub length-sort_by :
    (f : Transaction → Transaction → Bool) (txs : List Transaction)
    → length (sort_by f txs) ≡ length txs
unfolding sort_by
length-sort_by f [] = refl
length-sort_by f (tx ∷ txs) = length-insert_by f tx (sort_by f txs) ∙ ap suc (length-sort_by f txs)

pub take_all : (n : ℕ) (txs : List Transaction) → length txs ≤ n → take n txs ≡ txs
take_all zero [] h = refl
take_all zero (tx ∷ txs) h = absurd (omega arith)
take_all (suc n) [] h = refl
take_all (suc n) (tx ∷ txs) h = ap (◌∷◌ tx) (take_all n txs (omega arith))

pub first_of-take :
    (max : ℕ) (txs : List Transaction) → first_of (pos max) txs ≡ some (take max txs)
unfolding first_of
first_of-take max txs = ground (arith, take_all max txs, take_all (length txs) txs)

-- `GetTransactions` puts all entries of the pool in the order of their nonces, each as often as the
-- pool has it, and returns the first `max` of them, or all where there are no more. It panics where
-- `max` is negative.
pub get_transactions-take :
    (max : ℕ) (tp : TxPool)
    → (all : List Transaction) × Perm all (values tp.transactions)
      × Ascending 0 all
      × (get_transactions (pos max) tp ≡ some (take max all))
      × (get_transactions (negsuc max) tp ≡ none)
unfolding get_transactions sort_transactions_by_nonce_asc first_of
get_transactions-take max tp = (
  sort_by less (values tp.transactions),
  sort_by-Perm less (values tp.transactions),
  sort_by-Ascending (values tp.transactions),
  first_of-take max (sort_by less (values tp.transactions)),
  refl,
)
