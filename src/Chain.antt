-- ===== src/Chain.antt =====
-- pkg/chain: the blockchain, its head and its genesis block over the ledger. `setup` looks for the
-- genesis block in a loop, which runs on fuel. Its logger and its mutex are left out.
pub mod Linked
pub mod Growth
pub mod Refusal
pub mod Setup
pub mod Tests
use peerdns.Prelude.{ℕ, zero, suc, ◌*◌, Bool, Option, none, some, if◌then◌else◌, Bytes, beq}
use peerdns.Prelude.Int.{ℤ}
use peerdns.Types.Hash.{Hash, zero_hash}
use peerdns.Types.Address.{zero_address}
use peerdns.Types.Transaction.{Transaction}
use peerdns.Types.Block.{Block}
use peerdns.Genesis.{Genesis, create_genesis_block}
use peerdns.Ledger.Graph.{Graph}
use peerdns.Ledger.Blocks
use peerdns.Ledger.Blocks.{Ledger, AddBlockError, get_block, get_latest_block}
use peerdns.Ledger.Validation.Blocks.{
  InvalidBlock, first, check_index, check_hashes, check_timestamp, check_transactions,
}

-- `MaxTimeDrift` of pkg/chain.
abbrev pub max_time_drift : ℕ
max_time_drift = 5 * 60

-- A `nil` pointer is `none`.
pub record Blockchain (g : Graph) : Type 0 where
  pub ledger : Ledger g
  pub head : Option Block
  pub genesis_block : Option Block

-- `nil_head` is the panic of a call before `setup`.
pub data ChainError : Type 0 where
  invalid : InvalidBlock → ChainError
  refused : AddBlockError → ChainError
  nil_head not_extending : ChainError

pub data SetupError : Type 0 where
  no_latest_block no_genesis_block : SetupError
  genesis_refused : AddBlockError → SetupError
  broken_chain out_of_fuel : SetupError

-- The way back to the genesis block: arrived, a block is missing, or more fuel is needed.
pub data Walk : Type 0 where
  arrived : Block → Walk
  broken too_far : Walk

module _ (g : Graph) where
  -- `ValidateBlock`. The checks are the ledger's, that of a transaction word for word, except for
  -- the bound on the clock and for the consensus rules, which never fail.
  unfoldable pub validate_block : (Bytes → Hash) → ℤ → Block → Blockchain g → Option InvalidBlock
  validate_block sha256 now b bc =
      let previous = get_block g b.previous_hash bc.ledger in
      first (check_index b previous) (
        first (check_hashes sha256 b) (
          first (check_timestamp max_time_drift now b previous)
            (first (check_transactions b bc.ledger.state) none)))

  -- The call of the ledger, and the head that it leaves.
  unfoldable pub append_block : Block → Blockchain g → Blockchain g × Option ChainError
  append_block b bc =
      let result = Blocks.add_block g b bc.ledger in
      elim result.1 [
        | none ↦ (record bc { ledger = result.0; head = some b }, none)
        | some e ↦ (record bc { ledger = result.0 }, some (refused e))
      ]

  -- `AddBlock`
  unfoldable pub add_block :
      (Bytes → Hash) → ℤ → Block → Blockchain g → Blockchain g × Option ChainError
  add_block sha256 now b bc = elim (validate_block sha256 now b bc) [
    | none ↦ append_block b bc
    | some e ↦ (bc, some (invalid e))
  ]

  -- The second half of `HandleIncomingBlock`.
  unfoldable pub extend_head : Block → Blockchain g → Blockchain g × Option ChainError
  extend_head b bc = elim bc.head [
    | none ↦ (bc, some nil_head)
    | some head ↦
        if beq b.previous_hash head.hash then append_block b bc else (bc, some not_extending)
  ]

  -- `HandleIncomingBlock`
  unfoldable pub handle_incoming_block :
      (Bytes → Hash) → ℤ → Block → Blockchain g → Blockchain g × Option ChainError
  handle_incoming_block sha256 now b bc = elim (validate_block sha256 now b bc) [
    | none ↦ extend_head b bc
    | some e ↦ (bc, some (invalid e))
  ]

  -- `GetChainHeight`: without a head it is an error.
  unfoldable pub get_chain_height : Blockchain g → Option ℕ
  get_chain_height bc = elim bc.head [ none ↦ none | some head ↦ some head.index ]

  -- The loop of `setup`, on fuel.
  unfoldable pub find_genesis : ℕ → Block → Ledger g → Walk
  find_genesis zero b l = too_far
  find_genesis (suc fuel) b l =
      let rest : Walk = elim (get_block g b.previous_hash l) [
        | none ↦ broken
        | some p ↦ find_genesis fuel p l
      ] in
      if beq b.previous_hash zero_hash then arrived b else rest

  -- `setup` on a ledger that has blocks.
  unfoldable pub setup_found : ℕ → Block → Ledger g → Blockchain g × Option SetupError
  setup_found fuel latest l =
      let bc : Blockchain g = record { ledger = l; head = some latest; genesis_block = none } in
      elim (find_genesis fuel latest l) [
        | arrived b ↦ (record bc { genesis_block = some b }, none)
        | broken ↦ (bc, some broken_chain)
        | too_far ↦ (bc, some out_of_fuel)
      ]

  -- `setup` on an empty ledger: it makes the genesis block.
  unfoldable pub setup_genesis :
      (Bytes → Hash)
      → (Bytes → Option ℕ)
      → ℤ
      → Genesis
      → Ledger g
      → Blockchain g × Option SetupError
  setup_genesis sha256 set_string now config l =
      let bc : Blockchain g = record { ledger = l; head = none; genesis_block = none } in
      elim (create_genesis_block sha256 set_string now zero_address config) [
        | none ↦ (bc, some no_genesis_block)
        | some b ↦
            let result = Blocks.add_block g b l in
            elim result.1 [
              | none ↦ (record { ledger = result.0; head = some b; genesis_block = some b }, none)
              | some e ↦ (record bc { ledger = result.0 }, some (genesis_refused e))
            ]
      ]

  -- The branches of `setup`, on what `GetLatestBlock` returns: an error, or a block that may be nil.
  unfoldable pub setup_from :
      (Bytes → Hash)
      → (Bytes → Option ℕ)
      → ℤ
      → ℕ
      → Genesis
      → Option (Option Block)
      → Ledger g
      → Blockchain g × Option SetupError
  setup_from sha256 set_string now fuel config none l =
      (record { ledger = l; head = none; genesis_block = none }, some no_latest_block)
  setup_from sha256 set_string now fuel config (some none) l =
      setup_genesis sha256 set_string now config l
  setup_from sha256 set_string now fuel config (some (some latest)) l = setup_found fuel latest l

  -- `NewBlockchain` with `setup`. `GetLatestBlock` returns no block only with an error.
  unfoldable pub new_blockchain :
      (Bytes → Hash)
      → (Bytes → Option ℕ)
      → ℤ
      → ℕ
      → Genesis
      → Ledger g
      → Blockchain g × Option SetupError
  new_blockchain sha256 set_string now fuel config l =
      let latest : Option (Option Block) = elim (get_latest_block g l) [
        | none ↦ none
        | some b ↦ some (some b)
      ] in
      setup_from sha256 set_string now fuel config latest l
