-- ===== src/Consensus/Safety/Handlers.antt =====
-- The handlers of pkg/consensus/protocol.go that keep the safety invariant: all but the one for
-- finalization packets.
use peerdns.Prelude.{ℕ, ◌≡◌, refl, ap, ◌∙◌, not, ◌&&◌, beq, Option, none, some, Bytes}
use peerdns.Signers.{Signer, bls_signer_type}
use peerdns.Packets.PeerId.{PeerId}
use peerdns.Packets.Consensus.{ConsensusPacket}
use peerdns.Consensus.Effects.{◌>>◌}
use peerdns.Consensus.Effects.Keeps.{
  Keeps, After, kept, chain-Keeps, logged_keeps, if_keeps, option_keeps,
}
use peerdns.Consensus.ValidatorSet
use peerdns.Consensus.ValidatorSet.{ValidatorSet, Validator, peer_id, signer}
use peerdns.Consensus.State.{State}
use peerdns.Consensus.State
use peerdns.Consensus.Node.{Env, Node, on_state, approval_packet}
use peerdns.Consensus.Protocol.{
  propose_as, propose_block, check_quorum, approve_as, approve_proposal, auto_approve,
  accept_proposal, handle_proposal, accept_approval, handle_approval,
}
use peerdns.Consensus.Safety.{IsTrusted, IsSafe}
use peerdns.Consensus.Safety.Steps.{add_proposal-IsBacked}
use peerdns.Consensus.Safety.Calls.{
  on_state_keeps, check_quorum-Keeps, send_proposal-Keeps, add_approval_keeps, send_approval_keeps,
}

module _ (env : Env) (vs : ValidatorSet) (quorum : ℕ) where
  open env use {db}

  -- The invariant of the nodes of this section.
  abbrev P : Node env.db.Contents → Type 0
  P = IsSafe vs quorum

  propose_as-Keeps :
      (block_data : Bytes) (leader : Validator) (s : Option Signer)
      → Keeps P (propose_as env block_data leader s)
  unfolding propose_as
  propose_as-Keeps block_data leader none n p = kept P p
  propose_as-Keeps block_data leader (some s) n p =
      option_keeps P (s.sign (env.hash_data block_data)) (kept P p)
        (λ signature e. send_proposal-Keeps env vs quorum _ n p)

  pub propose_block-Keeps : (block_data : Bytes) → Keeps P (propose_block env block_data)
  unfolding propose_block
  propose_block-Keeps block_data n p =
      option_keeps P (ValidatorSet.current_leader n.validators) (kept P p) (λ leader e.
        if_keeps P (ValidatorSet.is_leader (peer_id leader) n.validators)
          (λ _. propose_as-Keeps block_data leader (signer leader bls_signer_type) n p)
          (λ _. kept P p))

  module _ (t : IsTrusted vs) where
    approve_as_keeps :
        (block_hash : Bytes) (id : PeerId) (w : Validator) (s : Option Signer)
        (n : Node env.db.Contents)
        → ValidatorSet.get_validator id vs ≡ some w
        → signer w bls_signer_type ≡ s
        → P n
        → After P (approve_as env block_hash w s n)
    unfolding approve_as
    approve_as_keeps block_hash id w none n found e p = kept P p
    approve_as_keeps block_hash id w (some s) n found e p =
        option_keeps P (s.sign block_hash) (kept P p) (λ sig signed.
          send_approval_keeps env vs quorum (approval_packet block_hash (peer_id w) sig) n p
            (record {
              validator = w;
              bls = s;
              member = ap (λ i. ValidatorSet.get_validator i vs) (t.keyed id w found) ∙ found;
              signs = e;
              verified = t.sound id w s found e block_hash sig signed;
            }))

    pub approve_proposal-Keeps :
        (block_hash : Bytes) (id : PeerId) → Keeps P (approve_proposal env block_hash id)
    unfolding approve_proposal
    approve_proposal-Keeps block_hash id n p =
        option_keeps P (ValidatorSet.get_validator id n.validators) (kept P p) (λ w found.
          approve_as_keeps block_hash id w (signer w bls_signer_type) n
            (rw p.same_validators at found) refl p)

    auto_approve-Keeps : (pkt : ConsensusPacket) → Keeps P (auto_approve env pkt)
    unfolding auto_approve
    auto_approve-Keeps pkt n p = option_keeps P n.network (kept P p) (λ id e.
        if_keeps P (ValidatorSet.is_validator id n.validators && not (beq id pkt.proposer_id))
          (λ _.
            logged_keeps P (approve_proposal env pkt.block_hash id) n
              (approve_proposal-Keeps pkt.block_hash id n p))
          (λ _. kept P p))

    accept_proposal-Keeps :
        (pkt : ConsensusPacket) (s : Option Signer) → Keeps P (accept_proposal env pkt s)
    unfolding accept_proposal
    accept_proposal-Keeps pkt none n p = kept P p
    accept_proposal-Keeps pkt (some s) n p =
        if_keeps P (s.verify pkt.block_hash pkt.signature)
          (λ _. logged_keeps P (on_state (State.add_proposal db pkt) >> auto_approve env pkt) n (
            chain-Keeps P (on_state (State.add_proposal db pkt)) (auto_approve env pkt) n
              (on_state_keeps env vs quorum (State.add_proposal db pkt) n p
                (add_proposal-IsBacked db n.state p.backed pkt))
              (auto_approve-Keeps pkt)))
          (λ _. kept P p)

    pub handle_proposal-Keeps : (pkt : ConsensusPacket) → Keeps P (handle_proposal env pkt)
    unfolding handle_proposal
    handle_proposal-Keeps pkt n p =
        if_keeps P (State.has_proposal pkt.block_hash n.state) (λ _. kept P p)
          (λ _.
            option_keeps P (ValidatorSet.get_validator pkt.proposer_id n.validators) (kept P p)
              (λ w e. accept_proposal-Keeps pkt (signer w bls_signer_type) n p))

  accept_approval_keeps :
      (pkt : ConsensusPacket) (w : Validator) (s : Option Signer) (n : Node env.db.Contents)
      → ValidatorSet.get_validator pkt.validator_id vs ≡ some w
      → signer w bls_signer_type ≡ s
      → P n
      → After P (accept_approval env pkt s n)
  unfolding accept_approval
  accept_approval_keeps pkt w none n found e p = kept P p
  accept_approval_keeps pkt w (some s) n found e p =
      if_keeps P (s.verify pkt.block_hash pkt.signature)
        (λ ver.
          logged_keeps P (on_state (State.add_approval db pkt) >> check_quorum env pkt.block_hash) n
            (chain-Keeps P (on_state (State.add_approval db pkt)) (check_quorum env pkt.block_hash)
              n
              (add_approval_keeps env vs quorum pkt n p
                (record { validator = w; bls = s; member = found; signs = e; verified = ver }))
              (check_quorum-Keeps env vs quorum pkt.block_hash)))
        (λ _. kept P p)

  pub handle_approval-Keeps : (pkt : ConsensusPacket) → Keeps P (handle_approval env pkt)
  unfolding handle_approval
  handle_approval-Keeps pkt n p =
      option_keeps P (ValidatorSet.get_validator pkt.validator_id n.validators) (kept P p)
        (λ w found.
          accept_approval_keeps pkt w (signer w bls_signer_type) n (rw p.same_validators at found)
            refl p)
