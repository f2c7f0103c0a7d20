-- ===== src/Sequencer/Pulled.antt =====
-- Which transactions a tick pulls from the pool (pkg/txpool/pool.go, as producer.go calls it).
use mathlib.Core.Path.{subst}
use mathlib.Core.List.{Memᴰ}
use mathlib.Core.List.Memᴰ
use peerdns.Prelude.{
  ◌≡◌, ◌≤◌, inl, inr, sym, ap, Bool, none, some, List, [], ◌∷◌, arith, Bytes, beq, length,
  Bool-cases, some_equal, ltb, refl, ◌∙◌,
}
use peerdns.Prelude.Int.{pos}
use peerdns.Prelude.Map.{Map, lookup, values, Distinct, length-le_of_keys}
use peerdns.Types.Transaction.{Transaction}
use peerdns.TxPool.{
  TxPool, insert_by, sort_by, first_of, get_transactions, sort_transactions_by_nonce_asc,
}
use peerdns.TxPool.Ordering.{take_all, first_of-take, length-sort_by}
use peerdns.Sequencer.{pulled}

-- The same map, its entries visited in another order.
abbrev pub Reordered : Map Transaction → Map Transaction → Type 0
Reordered order m = Distinct order × ((k : Bytes) → lookup k order ≡ lookup k m)

Memᴰ-values :
    (k : Bytes) (tx : Transaction) (m : Map Transaction) → lookup k m ≡ some tx → Memᴰ tx (values m)
unfolding lookup
Memᴰ-values k tx [] h = absurd (ground arith)
Memᴰ-values k tx ((j, v) ∷ m) h = elim (Bool-cases (beq j k)) [
  | inl e ↦ Memᴰ.head (sym (some_equal {a = v} (rw (e) at h)))
  | inr e ↦ Memᴰ.tail (Memᴰ-values k tx m (rw (e) at h))
]

Memᴰ-insert_by :
    (less : Transaction → Transaction → Bool) (x tx : Transaction) (txs : List Transaction)
    → Memᴰ x (tx ∷ txs)
    → Memᴰ x (insert_by less tx txs)
unfolding insert_by
Memᴰ-insert_by less x tx [] m = m
Memᴰ-insert_by less x tx (y ∷ ys) m = elim (Bool-cases (less y tx)) [
  | inl e ↦
      rw (e, insert_by)
        (elim (Memᴰ.cases_cons m) [
          | inl same ↦ Memᴰ.tail (Memᴰ-insert_by less x tx ys (Memᴰ.head same))
          | inr later ↦ elim (Memᴰ.cases_cons later) [
            | inl same ↦ Memᴰ.head same
            | inr there ↦ Memᴰ.tail (Memᴰ-insert_by less x tx ys (Memᴰ.tail there))
          ]
        ])
  | inr e ↦ rw (e, insert_by) m
]

Memᴰ-sort_by :
    (less : Transaction → Transaction → Bool) (x : Transaction) (txs : List Transaction)
    → Memᴰ x txs
    → Memᴰ x (sort_by less txs)
unfolding sort_by
Memᴰ-sort_by less x [] m = m
Memᴰ-sort_by less x (tx ∷ txs) m =
    Memᴰ-insert_by less x tx (sort_by less txs) (elim (Memᴰ.cases_cons m) [
      | inl same ↦ Memᴰ.head same
      | inr later ↦ Memᴰ.tail (Memᴰ-sort_by less x txs later)
    ])

length-values : (m : Map Transaction) → length (values m) ≡ length m
length-values [] = refl
length-values (e ∷ m) = ground (arith, length-values m)

Reordered-length : (order m : Map Transaction) → Reordered order m → length order ≤ length m
Reordered-length order m (d, same) = length-le_of_keys order m d (λ k h. ground (arith, h, same k))

-- A transaction of a pool of at most 100 is pulled, in whatever order the pool is visited.
pub pulled-all :
    (order : Map Transaction) (tp : TxPool) (k : Bytes) (tx : Transaction)
    → Reordered order tp.transactions
    → length tp.transactions ≤ 100
    → lookup k tp.transactions ≡ some tx
    → Memᴰ tx (pulled order tp)
unfolding pulled get_transactions sort_transactions_by_nonce_asc
pulled-all order tp k tx r few found =
    let sorted = sort_transactions_by_nonce_asc (values order) in
    let short : length sorted ≤ 100 = omega (
      arith,
      length-sort_by (λ a b. ltb a.nonce b.nonce) (values order),
      length-values order,
      Reordered-length order tp.transactions r,
      few,
    ) in
    let all : first_of (pos 100) sorted ≡ some sorted =
      first_of-take 100 sorted ∙ ap some (take_all 100 sorted short) in
    subst (λ o. Memᴰ tx (elim o as (λ _. List Transaction) [ none ↦ [] | some txs ↦ txs ]))
      (sym all) (Memᴰ-sort_by _ tx (values order) (Memᴰ-values k tx order (r.1 k ∙ found)))
