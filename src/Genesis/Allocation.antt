-- ===== src/Genesis/Allocation.antt =====
-- What the genesis block allocates, and that the chain's own checks refuse it (pkg/genesis/genesis.go
-- and pkg/chain/validation.go).
use mathlib.Core.Path.{subst}
use peerdns.Prelude.{
  sym, ℕ, ◌≡◌, ◌≢◌, refl, Option, none, some, List, [], ◌∷◌, arith, Bytes, Option-cases, inl, inr,
  Bool,
}
use peerdns.Prelude.Int.{ℤ}
use peerdns.Prelude.Map.{Map}
use peerdns.Wire.{replicate_zero}
use peerdns.Types.Hash.{Hash, Address, zero_hash}
use peerdns.Types.Address.{from_hex, is_zero, zero_address}
use peerdns.Types.Transaction.{Transaction}
use peerdns.Types.Block.{Block, compute_hash}
use peerdns.Types.Block.Made.{new_block-IsMade}
use peerdns.Ledger.State.{State}
use peerdns.Ledger.Validation.{validate_transaction, validate_transactions}
use peerdns.Genesis.{Genesis, allocation, allocations, create_genesis_block}

-- One account and its transaction.
pub data Allocates (sha256 : Bytes → Hash) (set_string : Bytes → Option ℕ) (miner : Address)
    (timestamp : ℤ) : Map Bytes → List Transaction → Type 0 where
  no_account : Allocates sha256 set_string miner timestamp [] []
  account :
      {alloc : Map Bytes} {txs : List Transaction} (spelling balance : Bytes) (address : Address)
      (amount : ℕ)
      → from_hex spelling ≡ some address
      → set_string balance ≡ some amount
      → Allocates sha256 set_string miner timestamp alloc txs
      → Allocates sha256 set_string miner timestamp
          ((spelling, balance) ∷ alloc)
          (allocation sha256 miner timestamp spelling address amount ∷ txs)

allocations-Allocates :
    (sha256 : Bytes → Hash) (set_string : Bytes → Option ℕ) (miner : Address) (timestamp : ℤ)
    (alloc : Map Bytes) (txs : List Transaction)
    → allocations sha256 set_string miner timestamp alloc ≡ some txs
    → Allocates sha256 set_string miner timestamp alloc txs
unfolding allocations
allocations-Allocates sha256 set_string miner timestamp [] txs h =
    subst (Allocates sha256 set_string miner timestamp []) (ground (arith, h)) no_account
allocations-Allocates sha256 set_string miner timestamp ((spelling, balance) ∷ alloc) txs h =
    let rest = allocations sha256 set_string miner timestamp alloc in
    elim (Option-cases (from_hex spelling)) [
      | inl e ↦ absurd (ground (arith, h, e))
      | inr (address, e) ↦ elim (Option-cases (set_string balance)) [
        | inl f ↦ absurd (ground (arith, h, e, f))
        | inr (amount, f) ↦ elim (Option-cases rest) [
          | inl k ↦ absurd (ground (arith, h, e, f, k))
          | inr (later, k) ↦
              let all = allocations-Allocates sha256 set_string miner timestamp alloc later k in
              let made = account spelling balance address amount e f all in
              subst (Allocates sha256 set_string miner timestamp ((spelling, balance) ∷ alloc))
                (ground (arith, h, e, f, k)) made
        ]
      ]
    ]

-- A genesis block has one transaction for each account of the configuration, in order, from the
-- miner to the account's address with its amount. There is an account, all addresses and balances
-- can be read, the index is 0, the previous hash is the zero hash, the hash is the one computed, and
-- the timestamp is the clock's, not that of the configuration.
pub create_genesis_block-Allocates :
    (sha256 : Bytes → Hash) (set_string : Bytes → Option ℕ) (now : ℤ) (miner : Address)
    (config : Genesis) (b : Block)
    → create_genesis_block sha256 set_string now miner config ≡ some b
    → Allocates sha256 set_string miner config.timestamp config.alloc b.transactions
      × (b.transactions ≢ [])
      × (b.index ≡ 0)
      × (b.previous_hash ≡ zero_hash)
      × (b.timestamp ≡ now)
      × (b.hash ≡ compute_hash sha256 b)
unfolding create_genesis_block
create_genesis_block-Allocates sha256 set_string now miner config b h =
    elim (Option-cases (allocations sha256 set_string miner config.timestamp config.alloc)) [
      | inl e ↦ absurd (ground (arith, h, e))
      | inr (txs, e) ↦
          let made =
            new_block-IsMade sha256 now 0 zero_hash txs miner config.difficulty b
              (ground (arith, h, e)) in
          let all =
            allocations-Allocates sha256 set_string miner config.timestamp config.alloc txs e in
          let same = sym made.same_transactions in
          (
            subst (Allocates sha256 set_string miner config.timestamp config.alloc) same all,
            subst (λ ts. ts ≢ []) same made.nonempty,
            made.same_index,
            made.same_previous_hash,
            made.same_timestamp,
            made.own_hash,
          )
    ]

-- The transactions of a genesis block whose miner is the zero address do not pass the checks of
-- transactions.
pub Allocates-refused :
    (sha256 : Bytes → Hash) (set_string : Bytes → Option ℕ) (timestamp : ℤ) (alloc : Map Bytes)
    (txs : List Transaction) (first : Bool) (s : State)
    → Allocates sha256 set_string zero_address timestamp alloc txs
    → txs ≢ []
    → validate_transactions txs first s ≢ none
unfolding validate_transactions validate_transaction allocation is_zero zero_address replicate_zero
Allocates-refused sha256 set_string timestamp _ _ first s no_account n = λ e. n refl
Allocates-refused sha256 set_string timestamp _ _ first s
      (account spelling balance address amount e f all) n =
    λ k. absurd (ground (arith, k))
