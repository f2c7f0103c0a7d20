-- ===== src/Validator/Safety/Calls.antt =====
-- The methods of pkg/validator/consensus.go that keep the safety invariant for what they are given.
use peerdns.Prelude.{
  ◌≡◌, inl, inr, refl, not, ◌&&◌, ◌==◌, ==_iff, arith, Bool, true, some, Bytes, beq, leb→le,
  Bool-cases,
}
use peerdns.Prelude.Map.{lookup}
use peerdns.Signers.{Signer, bls_signer_type}
use peerdns.Packets.PeerId.{packet_type_approval}
use peerdns.Packets.Consensus.{ConsensusPacket, serialize}
use peerdns.Consensus.Effects.{M, ◌>>◌}
use peerdns.Consensus.Effects.Keeps.{
  Keeps, After, kept, chain-Keeps, logged_keeps, if_keeps, option_keeps,
}
use peerdns.Consensus.ValidatorSet.{ValidatorSet, Account, quorum_size}
use peerdns.Consensus.State.{State, approvals_for, is_finalized, new_state}
use peerdns.Consensus.State
use peerdns.Validator.Module.{Env, ConsensusModule, on_state}
use peerdns.Validator.Verifying.{data_to_verify, signer_id}
use peerdns.Validator.Handlers.{
  signed, broadcast_message, send_proposal, propose_block, send_approval, send_finalization,
  finalize_block, check_quorum, handle_approval, handle_finalization, propose_next,
}
use peerdns.Validator.Safety.{IsSigned, IsAuthentic, IsBacked, IsSafe}
use peerdns.Validator.Safety.Steps.{
  Justified, add_proposal-IsBacked, finalize_block-IsBacked, add_approval-IsBacked,
}

-- The signature of an authentic vote is one on the block hash by the packet's validator.
pub IsAuthentic-vote :
    (vs : ValidatorSet) (A : ConsensusPacket → Type 0) (pkt : ConsensusPacket)
    → (pkt.packet_type == packet_type_approval) ≡ true
    → IsAuthentic vs A pkt
    → IsSigned vs pkt.validator_id pkt.block_hash pkt.signature
unfolding data_to_verify signer_id
IsAuthentic-vote vs A pkt e a =
    let t = (==_iff pkt.packet_type packet_type_approval).0 e in
    let covered : a.data_bytes ≡ pkt.block_hash = ground (arith, t, a.covers) in
    rw (t, covered) at a.signed

and_middle : (a b c : Bool) → (a && (b && c)) ≡ true → b ≡ true
and_middle a b c e = ground arith

module _ (env : Env) (identity : Account) (vs : ValidatorSet) (A : ConsensusPacket → Type 0) where
  open env use {db}

  -- The invariant of the modules of this section.
  abbrev P : ConsensusModule env.db.Contents → Type 0
  P = IsSafe identity vs A

  pub on_state_keeps :
      (m : M (State env.db.Contents) (Unit {0})) (n : ConsensusModule env.db.Contents)
      → P n
      → IsBacked vs A (m n.state).1
      → After P (on_state m n)
  on_state_keeps m n p b = record {
    holds = record {
      same_identity = p.same_identity;
      same_validators = p.same_validators;
      same_threshold = p.same_threshold;
      queued = p.queued;
      backed = b;
    };
  }

  broadcast_message-Keeps : (pkt : ConsensusPacket) → Keeps P (broadcast_message env pkt)
  unfolding broadcast_message
  broadcast_message-Keeps pkt n p =
      if_keeps P (env.publishes (serialize pkt))
        (λ _. record {
          holds = record {
            same_identity = p.same_identity;
            same_validators = p.same_validators;
            same_threshold = p.same_threshold;
            queued = p.queued;
            backed = p.backed;
          };
        })
        (λ _. kept P p)

  -- A call that signs with the node's BLS signer, where what follows keeps the invariant.
  pub signed_keeps :
      (data_bytes : Bytes) (k : Bytes → M (ConsensusModule env.db.Contents) (Unit {0}))
      (n : ConsensusModule env.db.Contents)
      → P n
      → ((s : Signer) (sig : Bytes)
          → lookup bls_signer_type n.identity.signers ≡ some s
          → s.sign data_bytes ≡ some sig
          → After P (k sig n))
      → After P (signed env bls_signer_type data_bytes k n)
  unfolding signed
  signed_keeps data_bytes k n p h =
      option_keeps P (lookup bls_signer_type n.identity.signers) (kept P p)
        (λ s found. option_keeps P (s.sign data_bytes) (kept P p) (λ sig e. h s sig found e))

  send_proposal-Keeps : (pkt : ConsensusPacket) → Keeps P (send_proposal env pkt)
  unfolding send_proposal
  send_proposal-Keeps pkt n p =
      chain-Keeps P (broadcast_message env pkt) _ n (broadcast_message-Keeps pkt n p) (λ n' p'.
        on_state_keeps (State.add_proposal db pkt) n' p'
          (add_proposal-IsBacked db n'.state p'.backed pkt))

  propose_block-Keeps : (block_data : Bytes) → Keeps P (propose_block env block_data)
  unfolding propose_block
  propose_block-Keeps block_data n p =
      signed_keeps _ _ n p (λ s sig found e. send_proposal-Keeps _ n p)

  pub propose_next-Keeps : (block_data : Bytes) → Keeps P (propose_next env block_data)
  unfolding propose_next
  propose_next-Keeps block_data n p =
      if_keeps P (n.proposers == 0) (λ _. kept P p)
        (λ _. logged_keeps P (propose_block env block_data) n (propose_block-Keeps block_data n p))

  pub send_approval_keeps :
      (pkt : ConsensusPacket) (n : ConsensusModule env.db.Contents)
      → P n
      → IsSigned vs pkt.validator_id pkt.block_hash pkt.signature
      → After P (send_approval env pkt n)
  unfolding send_approval
  send_approval_keeps pkt n p v =
      chain-Keeps P (broadcast_message env pkt) _ n (broadcast_message-Keeps pkt n p) (λ n' p'.
        on_state_keeps (State.add_approval db pkt) n' p'
          (add_approval-IsBacked db n'.state p'.backed pkt v))

  quorum_size_same :
      (n : ConsensusModule env.db.Contents) → P n → quorum_size n.validator_set ≡ quorum_size vs
  unfolding quorum_size
  quorum_size_same n p = rw (p.same_validators, p.same_threshold) refl

  finalize_block_state :
      (block_hash : Bytes) (n : ConsensusModule env.db.Contents)
      → P n
      → Justified vs A n.state block_hash
      → After P (on_state (State.finalize_block db block_hash) n)
  finalize_block_state block_hash n p reason =
      on_state_keeps (State.finalize_block db block_hash) n p
        (finalize_block-IsBacked db n.state p.backed block_hash reason)

  send_finalization_keeps :
      (pkt : ConsensusPacket) (n : ConsensusModule env.db.Contents)
      → P n
      → Justified vs A n.state pkt.block_hash
      → After P (send_finalization env pkt n)
  unfolding send_finalization broadcast_message
  send_finalization_keeps pkt n p reason = elim (Bool-cases (env.publishes (serialize pkt))) [
    | inl e ↦
        rw (send_finalization, broadcast_message, e)
          (finalize_block_state pkt.block_hash _
            (record {
              same_identity = p.same_identity;
              same_validators = p.same_validators;
              same_threshold = p.same_threshold;
              queued = p.queued;
              backed = p.backed;
            })
            reason)
    | inr e ↦ rw (send_finalization, broadcast_message, e) (kept P p)
  ]

  finalize_block_keeps :
      (block_hash : Bytes) (n : ConsensusModule env.db.Contents)
      → P n
      → Justified vs A n.state block_hash
      → After P (finalize_block env block_hash n)
  unfolding finalize_block
  finalize_block_keeps block_hash n p reason =
      signed_keeps _ _ n p (λ s sig found e. send_finalization_keeps _ n p reason)

  reached_quorum :
      (block_hash : Bytes) (n : ConsensusModule env.db.Contents)
      → P n
      → State.has_reached_quorum block_hash (quorum_size n.validator_set) n.state ≡ true
      → Justified vs A n.state block_hash
  unfolding State.has_reached_quorum
  reached_quorum block_hash n p e = inl (rw (quorum_size_same n p) at (leb→le _ _ e))

  check_quorum-Keeps : (block_hash : Bytes) → Keeps P (check_quorum env block_hash)
  unfolding check_quorum
  check_quorum-Keeps block_hash n p =
      if_keeps P
        (beq n.identity.peer_id n.current_leader
          && (State.has_reached_quorum block_hash (quorum_size n.validator_set) n.state
              && not (State.is_finalized block_hash n.state)))
        (λ both. logged_keeps P (finalize_block env block_hash) n (
          finalize_block_keeps block_hash n p
            (reached_quorum block_hash n p (and_middle _ _ _ both))))
        (λ _. kept P p)

  pub handle_approval_keeps :
      (pkt : ConsensusPacket) (n : ConsensusModule env.db.Contents)
      → P n
      → IsSigned vs pkt.validator_id pkt.block_hash pkt.signature
      → After P (handle_approval env pkt n)
  unfolding handle_approval
  handle_approval_keeps pkt n p v =
      logged_keeps P (on_state (State.add_approval db pkt) >> check_quorum env pkt.block_hash) n (
        chain-Keeps P (on_state (State.add_approval db pkt)) (check_quorum env pkt.block_hash) n
          (on_state_keeps (State.add_approval db pkt) n p
            (add_approval-IsBacked db n.state p.backed pkt v))
          (check_quorum-Keeps pkt.block_hash))

  pub handle_finalization_keeps :
      (pkt : ConsensusPacket) (n : ConsensusModule env.db.Contents)
      → P n
      → Justified vs A n.state pkt.block_hash
      → After P (handle_finalization env pkt n)
  unfolding handle_finalization
  handle_finalization_keeps pkt n p reason =
      logged_keeps P (on_state (State.finalize_block db pkt.block_hash)) n
        (finalize_block_state pkt.block_hash n p reason)
