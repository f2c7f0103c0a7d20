-- ===== src/Consensus/State/Votes.antt =====
-- A validator's second approval, and what an approval does to the stored block
-- (pkg/consensus/state.go).
use peerdns.Prelude.{◌≡◌, true, false, some, arith, beq_refl}
use peerdns.Prelude.Map.{has, lookup-insert}
use peerdns.Storage
use peerdns.Storage.{Mdbx, IsStore}
use peerdns.Packets.PeerId.{packet_type_approval, packet_type_proposal}
use peerdns.Packets.Consensus.{ConsensusPacket}
use peerdns.Consensus.Effects.{ok}
use peerdns.Consensus.State.{
  State, approvals_for, persist, record_approval, add_approval, add_proposal,
}
use peerdns.Consensus.State.Approvals.{add_approval-approvals}

module _ (db : Mdbx) where
  voted :
      (msg : ConsensusPacket) (cs : State db.Contents)
      → msg.packet_type ≡ packet_type_approval
      → has msg.validator_id (approvals_for msg.block_hash (add_approval db msg cs).1) ≡ true
  voted msg cs ty = ground (
    arith,
    add_approval-approvals db msg cs msg.block_hash,
    beq_refl msg.block_hash,
    beq_refl msg.validator_id,
    lookup-insert msg.validator_id msg.validator_id msg.signature (approvals_for msg.block_hash cs),
  )

  ignored :
      (msg : ConsensusPacket) (cs : State db.Contents)
      → msg.packet_type ≡ packet_type_approval
      → has msg.validator_id (approvals_for msg.block_hash cs) ≡ true
      → add_approval db msg cs ≡ (ok tt, cs)
  unfolding add_approval record_approval
  ignored msg cs ty old = ground arith

-- Once an approval was added, whether or not it reached the database, a further approval of the same
-- block by the same validator succeeds and changes nothing: each validator counts once.
pub add_approval_twice :
    (db : Mdbx) (msg again : ConsensusPacket) (cs : State db.Contents)
    → msg.packet_type ≡ packet_type_approval
    → again.packet_type ≡ packet_type_approval
    → again.block_hash ≡ msg.block_hash
    → again.validator_id ≡ msg.validator_id
    → add_approval db again (add_approval db msg cs).1 ≡ (ok tt, (add_approval db msg cs).1)
add_approval_twice db msg again cs ty ty' eh ei =
    ignored db again (add_approval db msg cs).1 ty' (rw (eh, ei) (voted db msg cs ty))

-- Where a proposal and then a first approval of its block are both persisted, the database holds
-- the approval's signature under the block's hash, and the block data is gone from there.
pub add_approval_replaces_block :
    (db : Mdbx) (proposal approval : ConsensusPacket) (cs : State db.Contents)
    (stored voted_for : db.Contents)
    → IsStore db
    → proposal.packet_type ≡ packet_type_proposal
    → approval.packet_type ≡ packet_type_approval
    → approval.block_hash ≡ proposal.block_hash
    → has approval.validator_id (approvals_for approval.block_hash cs) ≡ false
    → db.put cs.storage proposal.block_hash proposal.block_data ≡ some stored
    → db.put stored proposal.block_hash approval.signature ≡ some voted_for
    → Storage.get db (add_proposal db proposal cs).1.storage proposal.block_hash
        ≡ some proposal.block_data
      × (Storage.get db
            (add_approval db approval (add_proposal db proposal cs).1).1.storage
            proposal.block_hash
          ≡ some approval.signature)
unfolding add_proposal add_approval record_approval persist approvals_for Storage.set Storage.get
add_approval_replaces_block db proposal approval cs stored voted_for laws ty ty' eh new put put' =
    ground (
      arith,
      laws.get-put_self cs.storage stored proposal.block_hash proposal.block_data put,
      laws.get-put_self stored voted_for proposal.block_hash approval.signature put',
    )
