-- ===== src/Ledger/Tests.antt =====
-- Balances and checks at work, and instances of the theorems (pkg/ledger).
use peerdns.Prelude.{
  ℕ, ◌+◌, ◌%◌, ◌^◌, ◌≤◌, ◌≡◌, ◌↔◌, refl, false, none, List, [], ◌∷◌, ◌++◌, arith, beq, hex,
  hex_digit,
}
use peerdns.Prelude.Int.{pos, ◌+ℤ◌, ◌-ℤ◌}
use peerdns.Prelude.Map.{lookup, insert}
use peerdns.Types.Address.{address_hex, is_zero}
use peerdns.Types.Transaction.{Transaction}
use peerdns.Types.Block.{Block}
use peerdns.Ledger.State.{
  State, entry, get_balance, get_nonce, adjusted, update_balance, increment_nonce, debit,
  apply_transaction, apply_transactions, apply_block,
}
use peerdns.Ledger.State.Conservation.{total, sum_of, total-apply_block}
use peerdns.Ledger.Validation.{validate_spending, validate_transaction, validate_transactions}
use peerdns.Ledger.Validation.Transactions.{
  validate_transaction_iff, validate_transactions_repeated,
}

program : Unit {0}
unfolding entry get_balance get_nonce adjusted update_balance increment_nonce debit
    apply_transaction apply_transactions apply_block sum_of lookup insert address_hex hex hex_digit
    beq ◌+ℤ◌ ◌-ℤ◌ is_zero validate_spending validate_transaction validate_transactions
program = tt

abbrev payment : ℕ → ℕ → Transaction
payment amount nonce = record {
  id = 5 ∷ [];
  sender = 1 ∷ [];
  recipient = 2 ∷ [];
  amount = amount;
  fee = 3;
  nonce = nonce;
  timestamp = pos 0;
  signature = [];
  signature_type = [];
  payload = [];
}

-- The first account holds 60, the validator 4.
abbrev opening : State
opening = record {
  balances = (address_hex (1 ∷ []), 60) ∷ (address_hex (9 ∷ []), 4) ∷ [];
  nonces = [];
}

abbrev two_payments : Block
two_payments = record {
  index = 1;
  timestamp = pos 0;
  previous_hash = 7 ∷ [];
  hash = 8 ∷ 200 ∷ [];
  merkle_root = [];
  signature = [];
  signature_type = [];
  validator_id = 9 ∷ [];
  transactions = payment 20 1 ∷ payment 30 2 ∷ [];
  difficulty = 1000;
  version = 1;
  finalized_by = [];
}

balances_after :
    (get_balance (1 ∷ []) (apply_block two_payments opening) ≡ 4)
    × (get_balance (2 ∷ []) (apply_block two_payments opening) ≡ 50)
    × (get_balance (9 ∷ []) (apply_block two_payments opening) ≡ 10)
unfolding program
balances_after = (refl, refl, refl)

total-apply_block_example : total (apply_block two_payments opening) ≡ total opening
unfolding program
total-apply_block_example =
    total-apply_block two_payments opening (omega arith, (omega arith, tt)) (omega arith)

validate_transaction_iff_example : (validate_transaction (payment 20 1) false opening ≡ none) ↔ (
    (is_zero (1 ∷ []) ≡ false)
    × (1 ≤ 20)
    × ((20 + 3) % 2 ^ 64 ≤ get_balance (1 ∷ []) opening)
    × (1 ≡ (get_nonce (1 ∷ []) opening + 1) % 2 ^ 64))
validate_transaction_iff_example = validate_transaction_iff (payment 20 1) opening

abbrev one_payment : List Transaction
one_payment = payment 50 1 ∷ []

validate_transactions_repeated_example :
    validate_transactions (one_payment ++ one_payment) false opening ≡ none
unfolding program
validate_transactions_repeated_example =
    validate_transactions_repeated one_payment false opening refl
