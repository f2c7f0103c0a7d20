-- ===== src/Consensus/Safety/Steps.antt =====
-- The calls of pkg/consensus/state.go and protocol.go that keep the safety invariant.
use native.Mathlib.Nat.{le_trans}
use peerdns.Prelude.{
  ◌∙◌, ◌⊎◌, ℕ, ◌≡◌, ◌≤◌, sym, Bool, true, false, inl, inr, some, arith, if◌then◌else◌, Bytes, beq,
  beq_iff, length, Bool-cases,
}
use peerdns.Prelude.Map.{Map, lookup, Distinct, insert-Distinct, lookup-insert, length-insert}
use peerdns.Storage.{Mdbx}
use peerdns.Packets.PeerId.{PeerId}
use peerdns.Packets.Consensus.{ConsensusPacket}
use peerdns.Consensus.ValidatorSet.{ValidatorSet}
use peerdns.Consensus.State.{
  State, approvals_for, is_finalized, add_proposal, add_approval, finalize_block,
}
use peerdns.Consensus.State.Approvals.{
  add_proposal-approvals, add_proposal-finalized, add_approval-approvals, add_approval-finalized,
  finalize_block-approvals, finalize_block-finalized, approvals_for_same, is_finalized_same,
}
use peerdns.Consensus.Safety.{Verifies, IsBacked}

-- A state with the same approvals and no further finalized block is backed as well.
IsBacked-same :
    {S : Type 0} {vs : ValidatorSet} {quorum : ℕ} (cs cs' : State S)
    → cs'.approvals ≡ cs.approvals
    → ((h : Bytes) → is_finalized h cs' ≡ true → quorum ≤ length (approvals_for h cs))
    → IsBacked vs quorum cs
    → IsBacked vs quorum cs'
IsBacked-same cs cs' a f b = record {
  distinct = λ h. rw (approvals_for_same h cs cs' a) (b.distinct h);
  verified = λ h id sig e. b.verified h id sig (rw (approvals_for_same h cs cs' a) at e);
  quorate = λ h e. rw (approvals_for_same h cs cs' a) (f h e);
}

pub Distinct-if :
    (b : Bool) (m m' : Map Bytes) → Distinct m → Distinct m' → Distinct (if b then m else m')
Distinct-if true m m' d d' = d
Distinct-if false m m' d d' = d'

module _ (db : Mdbx) where
  -- A recorded signature is the new one or was there before.
  pub new_or_old :
      (msg : ConsensusPacket) (cs : State db.Contents) (h : Bytes) (id : PeerId) (sig : Bytes)
      → lookup id (approvals_for h (add_approval db msg cs).1) ≡ some sig
      → ((msg.block_hash ≡ h) × (msg.validator_id ≡ id) × (msg.signature ≡ sig))
        ⊎ (lookup id (approvals_for h cs) ≡ some sig)
  new_or_old msg cs h id sig e = ground (
    arith,
    add_approval-approvals db msg cs h,
    lookup-insert msg.validator_id id msg.signature (approvals_for msg.block_hash cs),
    beq_iff msg.block_hash h,
    beq_iff msg.validator_id id,
  )

  -- An approval never makes a block's approvals fewer.
  pub add_approval_grows :
      (msg : ConsensusPacket) (cs : State db.Contents) (h : Bytes)
      → length (approvals_for h cs) ≤ length (approvals_for h (add_approval db msg cs).1)
  add_approval_grows msg cs h = ground (
    arith,
    add_approval-approvals db msg cs h,
    length-insert msg.validator_id msg.signature (approvals_for msg.block_hash cs),
    beq_iff msg.block_hash h,
  )

module _ (db : Mdbx) {vs : ValidatorSet} {quorum : ℕ} (cs : State db.Contents)
    (b : IsBacked vs quorum cs) where
  pub add_proposal-IsBacked :
      (msg : ConsensusPacket) → IsBacked vs quorum (add_proposal db msg cs).1
  add_proposal-IsBacked msg =
      let cs' = (add_proposal db msg cs).1 in
      IsBacked-same cs cs' (add_proposal-approvals db msg cs)
        (λ h e.
          b.quorate h (sym (is_finalized_same h cs cs' (add_proposal-finalized db msg cs)) ∙ e))
        b

  -- Finalizing a block that has a quorum.
  pub finalize_block-IsBacked :
      (block_hash : Bytes)
      → quorum ≤ length (approvals_for block_hash cs)
      → IsBacked vs quorum (finalize_block db block_hash cs).1
  finalize_block-IsBacked block_hash reached =
      IsBacked-same cs (finalize_block db block_hash cs).1
        (finalize_block-approvals db block_hash cs)
        (λ h e. finalized_quorate h (sym (finalize_block-finalized db block_hash h cs) ∙ e)) b
    where
      finalized_quorate :
          (h : Bytes)
          → (if beq block_hash h then true else is_finalized h cs) ≡ true
          → quorum ≤ length (approvals_for h cs)
      finalized_quorate h e = elim (Bool-cases (beq block_hash h)) [
        | inl same ↦ rw ((beq_iff block_hash h).0 same) at reached
        | inr other ↦ b.quorate h (rw other at e)
      ]

  -- Recording a verified approval.
  pub add_approval-IsBacked :
      (msg : ConsensusPacket)
      → Verifies vs msg.validator_id msg.block_hash msg.signature
      → IsBacked vs quorum (add_approval db msg cs).1
  add_approval-IsBacked msg v = record {
    distinct = λ h.
        rw (add_approval-approvals db msg cs h)
          (Distinct-if _ _ _ (insert-Distinct _ _ _ (b.distinct msg.block_hash)) (b.distinct h));
    verified = λ h id sig e. elim (new_or_old db msg cs h id sig e) [
      | inl (eh, ei, es) ↦ rw (← eh, ← ei, ← es) v
      | inr old ↦ b.verified h id sig old
    ];
    quorate = λ h e.
        le_trans
          (b.quorate h (
            sym
              (is_finalized_same h cs (add_approval db msg cs).1 (add_approval-finalized db msg cs))
            ∙ e))
          (add_approval_grows db msg cs h);
  }
