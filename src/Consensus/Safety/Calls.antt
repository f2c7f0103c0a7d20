-- ===== src/Consensus/Safety/Calls.antt =====
-- The calls that the handlers of pkg/consensus/protocol.go are made of keep the safety invariant.
use peerdns.Prelude.{ℕ, ◌≡◌, ◌≤◌, true, Bytes, leb→le, length}
use peerdns.Packets.Consensus.{ConsensusPacket, serialize}
use peerdns.Consensus.Effects.{M}
use peerdns.Consensus.Effects.Keeps.{
  Keeps, After, kept, chain-Keeps, logged_keeps, if_keeps, option_keeps,
}
use peerdns.Consensus.ValidatorSet.{ValidatorSet}
use peerdns.Consensus.State.{State}
use peerdns.Consensus.State
use peerdns.Consensus.Node.{Env, Node, on_state, finalization_packet}
use peerdns.Consensus.Protocol.{
  broadcast_message, send_proposal, send_approval, finalize_block, check_quorum,
}
use peerdns.Consensus.Safety.{Verifies, IsBacked, IsSafe}
use peerdns.Consensus.Safety.Steps.{
  add_proposal-IsBacked, finalize_block-IsBacked, add_approval-IsBacked,
}

module _ (env : Env) (vs : ValidatorSet) (quorum : ℕ) where
  open env use {db}

  -- The invariant of the nodes of this section.
  abbrev P : Node env.db.Contents → Type 0
  P = IsSafe vs quorum

  pub on_state_keeps :
      (m : M (State env.db.Contents) (Unit {0})) (n : Node env.db.Contents)
      → P n
      → IsBacked vs quorum (m n.state).1
      → After P (on_state m n)
  on_state_keeps m n p b = record {
    holds = record { same_validators = p.same_validators; same_quorum = p.same_quorum; backed = b };
  }

  pub broadcast_message-Keeps : (pkt : ConsensusPacket) → Keeps P (broadcast_message env pkt)
  unfolding broadcast_message
  broadcast_message-Keeps pkt n p = option_keeps P n.network (kept P p) (λ host e.
      if_keeps P (env.broadcasts (serialize pkt))
        (λ _. record {
          holds = record {
            same_validators = p.same_validators;
            same_quorum = p.same_quorum;
            backed = p.backed;
          };
        })
        (λ _. kept P p))

  quorum_reached :
      (block_hash : Bytes) (n : Node env.db.Contents)
      → P n
      → State.has_reached_quorum block_hash n.quorum_threshold n.state ≡ true
      → quorum ≤ length (State.approvals_for block_hash n.state)
  unfolding State.has_reached_quorum
  quorum_reached block_hash n p e = rw p.same_quorum at (leb→le _ _ e)

  finalize_block-Keeps : (block_hash : Bytes) → Keeps P (finalize_block env block_hash)
  unfolding finalize_block
  finalize_block-Keeps block_hash n p =
      if_keeps P (State.is_finalized block_hash n.state) (λ _. kept P p)
        (λ _.
          if_keeps P (State.has_reached_quorum block_hash n.quorum_threshold n.state)
            (λ reached.
              chain-Keeps P (on_state (State.finalize_block db block_hash)) _ n
                (on_state_keeps (State.finalize_block db block_hash) n p (
                  finalize_block-IsBacked db n.state p.backed block_hash
                    (quorum_reached block_hash n p reached)))
                (broadcast_message-Keeps (finalization_packet block_hash)))
            (λ _. kept P p))

  pub check_quorum-Keeps : (block_hash : Bytes) → Keeps P (check_quorum env block_hash)
  unfolding check_quorum
  check_quorum-Keeps block_hash n p =
      if_keeps P (State.has_reached_quorum block_hash n.quorum_threshold n.state)
        (λ _.
          logged_keeps P (finalize_block env block_hash) n (finalize_block-Keeps block_hash n p))
        (λ _. kept P p)

  pub send_proposal-Keeps : (pkt : ConsensusPacket) → Keeps P (send_proposal env pkt)
  unfolding send_proposal
  send_proposal-Keeps pkt n p =
      chain-Keeps P (on_state (State.add_proposal db pkt)) (broadcast_message env pkt) n
        (on_state_keeps (State.add_proposal db pkt) n p
          (add_proposal-IsBacked db n.state p.backed pkt))
        (broadcast_message-Keeps pkt)

  pub add_approval_keeps :
      (pkt : ConsensusPacket) (n : Node env.db.Contents)
      → P n
      → Verifies vs pkt.validator_id pkt.block_hash pkt.signature
      → After P (on_state (State.add_approval db pkt) n)
  add_approval_keeps pkt n p v =
      on_state_keeps (State.add_approval db pkt) n p
        (add_approval-IsBacked db n.state p.backed pkt v)

  pub send_approval_keeps :
      (pkt : ConsensusPacket) (n : Node env.db.Contents)
      → P n
      → Verifies vs pkt.validator_id pkt.block_hash pkt.signature
      → After P (send_approval env pkt n)
  unfolding send_approval
  send_approval_keeps pkt n p v =
      chain-Keeps P (on_state (State.add_approval db pkt)) _ n (add_approval_keeps pkt n p v)
        (λ n' p'.
          chain-Keeps P (broadcast_message env pkt) (check_quorum env pkt.block_hash) n'
            (broadcast_message-Keeps pkt n' p') (check_quorum-Keeps pkt.block_hash))
