-- ===== src/Validator/Safety/Steps.antt =====
-- The calls of pkg/consensus/state.go that keep the state's part of the safety invariant.
use native.Mathlib.Nat.{le_trans}
use peerdns.Prelude.{
  ◌∙◌, ◌⊎◌, ◌≡◌, ◌≤◌, sym, true, inl, inr, if◌then◌else◌, Bytes, beq, beq_iff, length, Bool-cases,
}
use peerdns.Prelude.Map.{insert-Distinct}
use peerdns.Storage.{Mdbx}
use peerdns.Packets.Consensus.{ConsensusPacket}
use peerdns.Consensus.ValidatorSet.{ValidatorSet, quorum_size}
use peerdns.Consensus.State.{
  State, approvals_for, is_finalized, add_proposal, add_approval, finalize_block,
}
use peerdns.Consensus.State.Approvals.{
  add_proposal-approvals, add_proposal-finalized, add_approval-approvals, add_approval-finalized,
  finalize_block-approvals, finalize_block-finalized, approvals_for_same, is_finalized_same,
}
use peerdns.Consensus.Safety.Steps.{Distinct-if, new_or_old, add_approval_grows}
use peerdns.Validator.Safety.{IsSigned, Finalizes, IsBacked}

-- Why a block may be finalized.
abbrev pub Justified :
    {S : Type 0} → ValidatorSet → (ConsensusPacket → Type 0) → State S → Bytes → Type 0
Justified vs A cs h = (quorum_size vs ≤ length (approvals_for h cs)) ⊎ Finalizes vs A h

-- A state with the same approvals and no further finalized block is backed as well.
IsBacked-same :
    {S : Type 0} {vs : ValidatorSet} {A : ConsensusPacket → Type 0} (cs cs' : State S)
    → cs'.approvals ≡ cs.approvals
    → ((h : Bytes) → is_finalized h cs' ≡ true → Justified vs A cs h)
    → IsBacked vs A cs
    → IsBacked vs A cs'
IsBacked-same cs cs' a f b = record {
  distinct = λ h. rw (approvals_for_same h cs cs' a) (b.distinct h);
  approved = λ h id sig e. b.approved h id sig (rw (approvals_for_same h cs cs' a) at e);
  justified = λ h e. rw (approvals_for_same h cs cs' a) (f h e);
}

Justified-grows :
    {S : Type 0} {vs : ValidatorSet} {A : ConsensusPacket → Type 0} (cs cs' : State S) (h : Bytes)
    → length (approvals_for h cs) ≤ length (approvals_for h cs')
    → Justified vs A cs h
    → Justified vs A cs' h
Justified-grows cs cs' h l (inl q) = inl (le_trans q l)
Justified-grows cs cs' h l (inr f) = inr f

module _ (db : Mdbx) {vs : ValidatorSet} {A : ConsensusPacket → Type 0} (cs : State db.Contents)
    (b : IsBacked vs A cs) where
  pub add_proposal-IsBacked : (msg : ConsensusPacket) → IsBacked vs A (add_proposal db msg cs).1
  add_proposal-IsBacked msg =
      let cs' = (add_proposal db msg cs).1 in
      IsBacked-same cs cs' (add_proposal-approvals db msg cs)
        (λ h e.
          b.justified h (sym (is_finalized_same h cs cs' (add_proposal-finalized db msg cs)) ∙ e))
        b

  -- Finalizing a block for a reason.
  pub finalize_block-IsBacked :
      (block_hash : Bytes)
      → Justified vs A cs block_hash
      → IsBacked vs A (finalize_block db block_hash cs).1
  finalize_block-IsBacked block_hash reason =
      IsBacked-same cs (finalize_block db block_hash cs).1
        (finalize_block-approvals db block_hash cs)
        (λ h e. finalized_justified h (sym (finalize_block-finalized db block_hash h cs) ∙ e)) b
    where
      finalized_justified :
          (h : Bytes)
          → (if beq block_hash h then true else is_finalized h cs) ≡ true
          → Justified vs A cs h
      finalized_justified h e = elim (Bool-cases (beq block_hash h)) [
        | inl same ↦ rw ((beq_iff block_hash h).0 same) at reason
        | inr other ↦ b.justified h (rw other at e)
      ]

  -- Recording a signed approval.
  pub add_approval-IsBacked :
      (msg : ConsensusPacket)
      → IsSigned vs msg.validator_id msg.block_hash msg.signature
      → IsBacked vs A (add_approval db msg cs).1
  add_approval-IsBacked msg v = record {
    distinct = λ h.
        rw (add_approval-approvals db msg cs h)
          (Distinct-if _ _ _ (insert-Distinct _ _ _ (b.distinct msg.block_hash)) (b.distinct h));
    approved = λ h id sig e. elim (new_or_old db msg cs h id sig e) [
      | inl (eh, ei, es) ↦ rw (← eh, ← ei, ← es) v
      | inr old ↦ b.approved h id sig old
    ];
    justified = λ h e.
        Justified-grows cs (add_approval db msg cs).1 h (add_approval_grows db msg cs h) (
          b.justified h (
            sym
              (is_finalized_same h cs (add_approval db msg cs).1 (add_approval-finalized db msg cs))
            ∙ e));
  }
