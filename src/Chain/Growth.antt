-- ===== src/Chain/Growth.antt =====
-- Runs of the blockchain: any sequence of blocks made here and of blocks that come in
-- (pkg/chain/blocks.go and organization.go).
use peerdns.Prelude.{ℕ, ◌<◌, ◌≡◌, Option, none, some, Bytes, length}
use peerdns.Prelude.Int.{ℤ}
use peerdns.Types.Hash.{Hash, hash_size, zero_hash}
use peerdns.Types.Block.{Block}
use peerdns.Genesis.{Genesis}
use peerdns.Ledger.Graph.{Graph, IsGraph}
use peerdns.Ledger.Blocks.{get_latest_block}
use peerdns.Chain.{Blockchain, add_block, handle_incoming_block, new_blockchain}
use peerdns.Chain.Linked.{AllLinked, Fresh, add_block-handle_incoming_block-AllLinked}
use peerdns.Chain.Setup.{new_blockchain-linked}

-- The calls that change the blockchain, each at a time of the clock and with a block whose hash no
-- other block of the ledger has.
pub data Calls (g : Graph) (sha256 : Bytes → Hash) (start : Blockchain g)
    : Blockchain g → Type 0 where
  no_call : Calls g sha256 start start
  added :
      {bc : Blockchain g}
      → Calls g sha256 start bc
      → (now : ℤ) (b : Block) → length b.hash ≡ hash_size
      → Fresh g bc.ledger.graph b
      → Calls g sha256 start (add_block g sha256 now b bc).0
  received :
      {bc : Blockchain g}
      → Calls g sha256 start bc
      → (now : ℤ) (b : Block) → length b.hash ≡ hash_size
      → Fresh g bc.ledger.graph b
      → Calls g sha256 start (handle_incoming_block g sha256 now b bc).0

module _ (g : Graph) (laws : IsGraph g) (sha256 : Bytes → Hash) where
  Calls-AllLinked :
      (start bc : Blockchain g)
      → AllLinked g start.ledger.graph
      → Calls g sha256 start bc
      → AllLinked g bc.ledger.graph
  Calls-AllLinked start _ all no_call = all
  Calls-AllLinked start _ all (added {bc} calls now b n fresh) =
      (add_block-handle_incoming_block-AllLinked g laws sha256 now b bc n fresh
        (Calls-AllLinked start bc all calls)).0
  Calls-AllLinked start _ all (received {bc} calls now b n fresh) =
      (add_block-handle_incoming_block-AllLinked g laws sha256 now b bc n fresh
        (Calls-AllLinked start bc all calls)).1

  -- A run of calls starts on a ledger whose blocks are linked, and each block given to a call has a
  -- hash of the fixed size, which no other block of the ledger has at that time. After it, where the
  -- ledger has a latest block and the fuel is above its index, the blockchain can be set up anew
  -- from the ledger: the loop arrives at a block with the zero hash as previous hash.
  pub new_blockchain-Calls :
      (set_string : Bytes → Option ℕ) (now : ℤ) (fuel : ℕ) (config : Genesis)
      (start bc : Blockchain g) (latest : Block)
      → AllLinked g start.ledger.graph
      → Calls g sha256 start bc
      → get_latest_block g bc.ledger ≡ some latest
      → latest.index < fuel
      → (b : Block) × (b.previous_hash ≡ zero_hash)
        × (new_blockchain g sha256 set_string now fuel config bc.ledger
            ≡ (record { ledger = bc.ledger; head = some latest; genesis_block = some b }, none))
  new_blockchain-Calls set_string now fuel config start bc latest all calls last enough =
      new_blockchain-linked g sha256 set_string now fuel config bc.ledger latest
        (Calls-AllLinked start bc all calls) last enough
