-- ===== src/Ledger/State.antt =====
-- pkg/ledger/state.go: balances and nonces by address, and what the transactions of a block do to
-- them. A uint64 is a number below 2 ^ 64; the conversions and sums of the source wrap.
pub mod Conservation
use peerdns.Prelude.{
  ℕ, ◌+◌, ◌%◌, ◌^◌, ◌≡◌, Option, none, some, List, [], ◌∷◌, ltb, if◌then◌else◌, Bytes,
}
use peerdns.Prelude.Int.{ℤ, pos, ltb_ℤ, ◌+ℤ◌, ◌-ℤ◌, to_uint64, to_int64}
use peerdns.Prelude.Map.{Map, lookup, insert}
use peerdns.Types.Hash.{Address}
use peerdns.Types.Address.{address_hex}
use peerdns.Types.Transaction.{Transaction}
use peerdns.Types.Block.{Block}

pub record State : Type 0 where
  pub balances : Map ℕ
  pub nonces : Map ℕ

unfoldable pub new_state : State
new_state = record { balances = []; nonces = [] }

-- A missing entry reads as 0.
unfoldable pub entry : Bytes → Map ℕ → ℕ
entry k m = elim (lookup k m) [ none ↦ 0 | some v ↦ v ]

unfoldable pub get_balance : Address → State → ℕ
get_balance a s = entry (address_hex a) s.balances

unfoldable pub get_nonce : Address → State → ℕ
get_nonce a s = entry (address_hex a) s.nonces

-- An int64 result, with its wrap-around.
abbrev pub wrap_int64 : ℤ → ℤ
wrap_int64 z = to_int64 (to_uint64 z)

-- The new balance: the sum of two int64, cut at 0.
unfoldable pub adjusted : ℕ → ℤ → ℕ
adjusted balance amount =
    let sum = wrap_int64 (to_int64 balance +ℤ amount) in
    if ltb_ℤ sum (pos 0) then 0 else to_uint64 sum

unfoldable pub update_balance : Address → ℤ → State → State
update_balance a amount s = record s {
  balances = insert (address_hex a) (adjusted (entry (address_hex a) s.balances) amount) s.balances;
}

unfoldable pub increment_nonce : Address → State → State
increment_nonce a s = record s {
  nonces = insert (address_hex a) ((entry (address_hex a) s.nonces + 1) % 2 ^ 64) s.nonces;
}

-- `-int64(tx.Amount+tx.Fee)`
unfoldable pub debit : Transaction → ℤ
debit tx = wrap_int64 (pos 0 -ℤ to_int64 ((tx.amount + tx.fee) % 2 ^ 64))

-- One round of the loop of `applyBlock`.
unfoldable pub apply_transaction : Address → Transaction → State → State
apply_transaction validator tx s = update_balance validator (to_int64 tx.fee) (
    update_balance tx.recipient (to_int64 tx.amount)
      (increment_nonce tx.sender (update_balance tx.sender (debit tx) s)))

unfoldable pub apply_transactions : Address → List Transaction → State → State
apply_transactions validator [] s = s
apply_transactions validator (tx ∷ txs) s =
    apply_transactions validator txs (apply_transaction validator tx s)

-- `applyBlock`
unfoldable pub apply_block : Block → State → State
apply_block b s = apply_transactions b.validator_id b.transactions s
