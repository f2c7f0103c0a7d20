-- ===== src/Ledger/Validation/Transactions.antt =====
-- Which transactions pass the checks (pkg/ledger/validation.go).
use peerdns.Prelude.{
  ◌+◌, ◌%◌, ◌^◌, ◌≤◌, ◌≡◌, ◌↔◌, refl, Bool, false, none, List, [], ◌∷◌, ◌++◌, arith,
}
use peerdns.Types.Address.{is_zero}
use peerdns.Types.Transaction.{Transaction}
use peerdns.Ledger.State.{State, get_balance, get_nonce}
use peerdns.Ledger.Validation.{validate_spending, validate_transaction, validate_transactions}

-- Outside the genesis block a transaction passes exactly if its sender is not the zero address,
-- its amount is positive, the sender's balance is at least the amount and the fee, summed modulo
-- 2 ^ 64, and its nonce is the sender's next.
pub validate_transaction_iff :
    (tx : Transaction) (s : State)
    → (validate_transaction tx false s ≡ none) ↔ (
        (is_zero tx.sender ≡ false)
        × (1 ≤ tx.amount)
        × ((tx.amount + tx.fee) % 2 ^ 64 ≤ get_balance tx.sender s)
        × (tx.nonce ≡ (get_nonce tx.sender s + 1) % 2 ^ 64))
unfolding validate_transaction validate_spending
validate_transaction_iff tx s = ground arith

validate_transactions-append :
    (txs us : List Transaction) (g : Bool) (s : State)
    → validate_transactions txs g s ≡ none
    → validate_transactions (txs ++ us) g s ≡ validate_transactions us g s
unfolding validate_transactions
validate_transactions-append [] us g s h = refl
validate_transactions-append (tx ∷ txs) us g s h =
    ground (arith, validate_transactions-append txs us g s)

-- The state is not advanced between a block's transactions: a list that passes also passes with
-- all of it repeated, so that one transaction, with one nonce and one balance, counts twice.
pub validate_transactions_repeated :
    (txs : List Transaction) (g : Bool) (s : State)
    → validate_transactions txs g s ≡ none
    → validate_transactions (txs ++ txs) g s ≡ none
validate_transactions_repeated txs g s h = rw (validate_transactions-append txs txs g s h) h
