-- ===== src/Chain/Refusal.antt =====
-- Blocks that the chain's checks refuse (pkg/chain/validation.go, pkg/genesis and pkg/sequencer).
use peerdns.Prelude.{ℕ, ◌≡◌, ◌≢◌, Option, none, some, Bytes, ◌==◌}
use peerdns.Prelude.Int.{ℤ}
use peerdns.Types.Hash.{Hash}
use peerdns.Types.Address.{zero_address}
use peerdns.Types.Block.{Block}
use peerdns.Genesis.{Genesis, create_genesis_block}
use peerdns.Genesis.Allocation.{create_genesis_block-Allocates, Allocates-refused}
use peerdns.Ledger.Graph.{Graph}
use peerdns.Ledger.Blocks.{get_block}
use peerdns.Ledger.Validation.Blocks.Accepted.{Sound, check_block-Sound}
use peerdns.Chain.{Blockchain, max_time_drift, validate_block}

module _ (g : Graph) where
  -- A block that passes has what the checks ask for.
  pub validate_block-Sound :
      (sha256 : Bytes → Hash) (now : ℤ) (b : Block) (bc : Blockchain g)
      → validate_block g sha256 now b bc ≡ none
      → Sound sha256 max_time_drift now b (get_block g b.previous_hash bc.ledger) bc.ledger.state
  unfolding validate_block
  validate_block-Sound sha256 now b bc ok =
      (check_block-Sound sha256 max_time_drift now b (get_block g b.previous_hash bc.ledger)
        bc.ledger.state none ok).0

  -- `ValidateBlock` never accepts a genesis block that `CreateGenesisBlock` makes with the zero
  -- address as miner, as the setup of the blockchain calls it: its transactions have the zero
  -- address as sender.
  pub validate_block-create_genesis_block :
      (sha256 : Bytes → Hash) (set_string : Bytes → Option ℕ) (now later : ℤ) (config : Genesis)
      (b : Block) (bc : Blockchain g)
      → create_genesis_block sha256 set_string now zero_address config ≡ some b
      → validate_block g sha256 later b bc ≢ none
  validate_block-create_genesis_block sha256 set_string now later config b bc made = λ ok.
      let allocated =
        create_genesis_block-Allocates sha256 set_string now zero_address config b made in
      let sound = validate_block-Sound sha256 later b bc ok in
      Allocates-refused sha256 set_string config.timestamp config.alloc b.transactions
        (b.index == 0) bc.ledger.state allocated.0 allocated.1 sound.4
