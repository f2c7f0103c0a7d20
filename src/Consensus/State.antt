-- ===== src/Consensus/State.antt =====
-- pkg/consensus/state.go: proposals, approvals and finalized blocks, in memory by the hexadecimal
-- spelling of the block hash and in the database by the hash itself. One call runs at a time.
pub mod Approvals
pub mod Votes
use peerdns.Prelude.{
  ℕ, Bool, true, false, none, some, [], leb, ◌==◌, if◌then◌else◌, Bytes, codes, hex, length,
}
use peerdns.Prelude.Map.{Map, lookup, has, insert}
use peerdns.Storage
use peerdns.Storage.{Mdbx}
use peerdns.Packets.PeerId.{packet_type_proposal, packet_type_approval}
use peerdns.Packets.Consensus.{ConsensusPacket}
use peerdns.Consensus.Effects.{M, ok, err, storage_failure, invalid_packet_type}

pub record State (S : Type 0) : Type 0 where
  pub proposals : Map ConsensusPacket
  -- The signatures of the validators that approved, for each block.
  pub approvals : Map (Map Bytes)
  pub finalized : Map Bool
  pub storage : S

unfoldable pub new_state : {S : Type 0} → S → State S
new_state s = record { proposals = []; approvals = []; finalized = []; storage = s }

-- A missing entry is the empty map.
unfoldable pub approvals_for : {S : Type 0} → Bytes → State S → Map Bytes
approvals_for block_hash cs = elim (lookup (hex block_hash) cs.approvals) [
  | none ↦ []
  | some approvals ↦ approvals
]

unfoldable pub has_proposal : {S : Type 0} → Bytes → State S → Bool
has_proposal block_hash cs = has (hex block_hash) cs.proposals

unfoldable pub get_approval_count : {S : Type 0} → Bytes → State S → ℕ
unfolding approvals_for
get_approval_count block_hash cs = length (approvals_for block_hash cs)

unfoldable pub has_reached_quorum : {S : Type 0} → Bytes → ℕ → State S → Bool
unfolding approvals_for
has_reached_quorum block_hash quorum_size cs =
    leb quorum_size (length (approvals_for block_hash cs))

unfoldable pub is_finalized : {S : Type 0} → Bytes → State S → Bool
is_finalized block_hash cs = elim (lookup (hex block_hash) cs.finalized) [
  | none ↦ false
  | some flag ↦ flag
]

module _ (db : Mdbx) where
  -- `cs.storage.Set` with its error passed on.
  unfoldable pub persist : Bytes → Bytes → M (State db.Contents) (Unit {0})
  persist key value cs = elim (Storage.set db cs.storage key value) [
    | none ↦ (err storage_failure, cs)
    | some s ↦ (ok tt, record cs { storage = s })
  ]

  unfoldable pub add_proposal : ConsensusPacket → M (State db.Contents) (Unit {0})
  add_proposal msg cs =
      if msg.packet_type == packet_type_proposal
      then persist msg.block_hash msg.block_data
          (record cs { proposals = insert (hex msg.block_hash) msg cs.proposals })
      else (err invalid_packet_type, cs)

  -- The approval enters the map of its block; a validator that is there already adds nothing.
  unfoldable pub record_approval : ConsensusPacket → Map Bytes → M (State db.Contents) (Unit {0})
  record_approval msg approvals cs =
      if has msg.validator_id approvals
      then (ok tt, cs)
      else persist msg.block_hash msg.signature (record cs {
        approvals =
            insert (hex msg.block_hash) (insert msg.validator_id msg.signature approvals)
              cs.approvals;
      })

  unfoldable pub add_approval : ConsensusPacket → M (State db.Contents) (Unit {0})
  unfolding approvals_for
  add_approval msg cs =
      if msg.packet_type == packet_type_approval
      then record_approval msg (approvals_for msg.block_hash cs) cs
      else (err invalid_packet_type, cs)

  unfoldable pub finalize_block : Bytes → M (State db.Contents) (Unit {0})
  finalize_block block_hash cs =
      persist block_hash (codes "finalized")
        (record cs { finalized = insert (hex block_hash) true cs.finalized })
