-- ===== src/Consensus/State/Approvals.antt =====
-- What the methods of pkg/consensus/state.go do to the approvals and to the finalized blocks.
use peerdns.Prelude.{
  ◌≡◌, true, not, ◌&&◌, arith, ◌==◌, if◌then◌else◌, Bytes, beq, beq_iff, hex, hex-injective,
}
use peerdns.Prelude.Map.{has, insert, lookup-insert}
use peerdns.Storage.{Mdbx}
use peerdns.Packets.PeerId.{packet_type_approval}
use peerdns.Packets.Consensus.{ConsensusPacket}
use peerdns.Consensus.State.{
  State, approvals_for, is_finalized, persist, add_proposal, record_approval, add_approval,
  finalize_block,
}

module _ (db : Mdbx) where
  -- What is only persisted leaves the maps in memory.
  pub persist-approvals :
      (k v : Bytes) (cs : State db.Contents) → (persist db k v cs).1.approvals ≡ cs.approvals
  unfolding persist
  persist-approvals k v cs = ground arith

  pub persist-finalized :
      (k v : Bytes) (cs : State db.Contents) → (persist db k v cs).1.finalized ≡ cs.finalized
  unfolding persist
  persist-finalized k v cs = ground arith

  pub add_proposal-approvals :
      (msg : ConsensusPacket) (cs : State db.Contents)
      → (add_proposal db msg cs).1.approvals ≡ cs.approvals
  unfolding add_proposal persist
  add_proposal-approvals msg cs = ground arith

  pub add_proposal-finalized :
      (msg : ConsensusPacket) (cs : State db.Contents)
      → (add_proposal db msg cs).1.finalized ≡ cs.finalized
  unfolding add_proposal persist
  add_proposal-finalized msg cs = ground arith

  pub add_approval-finalized :
      (msg : ConsensusPacket) (cs : State db.Contents)
      → (add_approval db msg cs).1.finalized ≡ cs.finalized
  unfolding add_approval record_approval persist
  add_approval-finalized msg cs = ground arith

  pub finalize_block-approvals :
      (h : Bytes) (cs : State db.Contents) → (finalize_block db h cs).1.approvals ≡ cs.approvals
  unfolding finalize_block persist
  finalize_block-approvals h cs = ground arith

  -- Finalizing a block marks that block and no other.
  pub finalize_block-finalized :
      (h j : Bytes) (cs : State db.Contents)
      → is_finalized j (finalize_block db h cs).1 ≡ (if beq h j then true else is_finalized j cs)
  unfolding finalize_block persist is_finalized
  finalize_block-finalized h j cs = ground (
    arith,
    lookup-insert (hex h) (hex j) true cs.finalized,
    beq_iff h j,
    beq_iff (hex h) (hex j),
    hex-injective h j,
  )

  -- The approvals of every block after one more approval: the block of the packet gains the
  -- validator, unless it was there.
  pub add_approval-approvals :
      (msg : ConsensusPacket) (cs : State db.Contents) (h : Bytes)
      → approvals_for h (add_approval db msg cs).1 ≡ (
          if (msg.packet_type == packet_type_approval)
            && (beq msg.block_hash h
                && not (has msg.validator_id (approvals_for msg.block_hash cs)))
          then insert msg.validator_id msg.signature (approvals_for msg.block_hash cs)
          else approvals_for h cs)
  unfolding add_approval record_approval persist approvals_for
  add_approval-approvals msg cs h = ground (
    arith,
    beq_iff msg.block_hash h,
    beq_iff (hex msg.block_hash) (hex h),
    hex-injective msg.block_hash h,
    lookup-insert (hex msg.block_hash) (hex h)
        (insert msg.validator_id msg.signature (approvals_for msg.block_hash cs)) cs.approvals,
  )

pub approvals_for_same :
    {S : Type 0} (h : Bytes) (cs cs' : State S)
    → cs'.approvals ≡ cs.approvals
    → approvals_for h cs' ≡ approvals_for h cs
unfolding approvals_for
approvals_for_same h cs cs' e = ground arith

pub is_finalized_same :
    {S : Type 0} (h : Bytes) (cs cs' : State S)
    → cs'.finalized ≡ cs.finalized
    → is_finalized h cs' ≡ is_finalized h cs
unfolding is_finalized
is_finalized_same h cs cs' e = ground arith
