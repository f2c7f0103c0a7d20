-- ===== src/Ledger/State/Conservation.antt =====
-- No transaction that its sender can pay makes or loses money (pkg/ledger/state.go).
use peerdns.Prelude.{ℕ, ◌+◌, ◌-◌, ◌^◌, ◌≤◌, ◌<◌, ◌≡◌, refl, List, [], ◌∷◌, arith, Bytes}
use peerdns.Prelude.Int.{◌+ℤ◌, ◌-ℤ◌, to_int64}
use peerdns.Prelude.Map.{Map, lookup, insert}
use peerdns.Types.Hash.{Address}
use peerdns.Types.Address.{address_hex}
use peerdns.Types.Transaction.{Transaction}
use peerdns.Types.Block.{Block}
use peerdns.Ledger.State.{
  State, entry, get_balance, adjusted, update_balance, increment_nonce, debit, apply_transaction,
  apply_transactions, apply_block,
}

-- The money in the ledger.
unfoldable pub sum_of : Map ℕ → ℕ
sum_of [] = 0
sum_of ((k, v) ∷ m) = v + sum_of m

abbrev pub total : State → ℕ
total s = sum_of s.balances

entry-le : (k : Bytes) (m : Map ℕ) → entry k m ≤ sum_of m
unfolding entry lookup sum_of
entry-le k [] = omega arith
entry-le k ((j, v) ∷ m) = ground (arith, entry-le k m)

sum_of-insert : (k : Bytes) (v : ℕ) (m : Map ℕ) → sum_of (insert k v m) + entry k m ≡ sum_of m + v
unfolding entry lookup insert sum_of
sum_of-insert k v [] = omega arith
sum_of-insert k v ((j, w) ∷ m) = ground (arith, sum_of-insert k v m)

adjusted_up : (b d : ℕ) → b + d < 2 ^ 63 → adjusted b (to_int64 d) ≡ b + d
unfolding adjusted ◌+ℤ◌
adjusted_up b d h = ground arith

adjusted_down :
    (b : ℕ) (tx : Transaction)
    → tx.amount + tx.fee ≤ b
    → b < 2 ^ 63
    → adjusted b (debit tx) ≡ b - (tx.amount + tx.fee)
unfolding adjusted debit ◌+ℤ◌ ◌-ℤ◌
adjusted_down b tx h k = ground arith

pub total-credit :
    (a : Address) (d : ℕ) (s : State)
    → total s + d < 2 ^ 63
    → total (update_balance a (to_int64 d) s) ≡ total s + d
unfolding update_balance
total-credit a d s h =
    let b = entry (address_hex a) s.balances in
    let small = entry-le (address_hex a) s.balances in
    let e = adjusted_up b d (omega (arith, small)) in
    omega (arith, e, sum_of-insert (address_hex a) (adjusted b (to_int64 d)) s.balances)

total-debit :
    (tx : Transaction) (s : State)
    → tx.amount + tx.fee ≤ get_balance tx.sender s
    → total s < 2 ^ 63
    → total (update_balance tx.sender (debit tx) s) + (tx.amount + tx.fee) ≡ total s
unfolding update_balance get_balance
total-debit tx s funds h =
    let b = entry (address_hex tx.sender) s.balances in
    let small = entry-le (address_hex tx.sender) s.balances in
    let e = adjusted_down b tx funds (omega (arith, small)) in
    omega (
      arith,
      e,
      funds,
      small,
      sum_of-insert (address_hex tx.sender) (adjusted b (debit tx)) s.balances,
    )

total-apply_transaction :
    (validator : Address) (tx : Transaction) (s : State)
    → tx.amount + tx.fee ≤ get_balance tx.sender s
    → total s < 2 ^ 63
    → total (apply_transaction validator tx s) ≡ total s
unfolding apply_transaction increment_nonce
total-apply_transaction validator tx s funds h =
    let s1 = increment_nonce tx.sender (update_balance tx.sender (debit tx) s) in
    let paid = total-debit tx s funds h in
    let got = total-credit tx.recipient tx.amount s1 (omega (arith, paid)) in
    omega (
      arith,
      paid,
      got,
      total-credit validator tx.fee (update_balance tx.recipient (to_int64 tx.amount) s1)
          (omega (arith, paid, got)),
    )

-- Each sender can pay when its turn comes.
abbrev pub AllFunded : Address → List Transaction → State → Type 0
AllFunded validator [] s = Unit
AllFunded validator (tx ∷ txs) s =
    (tx.amount + tx.fee ≤ get_balance tx.sender s)
    × AllFunded validator txs (apply_transaction validator tx s)

total-apply_transactions :
    (validator : Address) (txs : List Transaction) (s : State)
    → AllFunded validator txs s
    → total s < 2 ^ 63
    → total (apply_transactions validator txs s) ≡ total s
unfolding apply_transactions
total-apply_transactions validator [] s f h = refl
total-apply_transactions validator (tx ∷ txs) s f h =
    let e = total-apply_transaction validator tx s f.0 h in
    let rest =
      total-apply_transactions validator txs (apply_transaction validator tx s) f.1
        (omega (arith, e)) in
    omega (arith, e, rest)

-- Where all balances sum to less than 2 ^ 63 and each sender has the amount and the fee when its
-- transaction is applied, a block leaves the sum of the balances as it was.
pub total-apply_block :
    (b : Block) (s : State)
    → AllFunded b.validator_id b.transactions s
    → total s < 2 ^ 63
    → total (apply_block b s) ≡ total s
unfolding apply_block
total-apply_block b s f h = total-apply_transactions b.validator_id b.transactions s f h
