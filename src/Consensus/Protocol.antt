-- ===== src/Consensus/Protocol.antt =====
-- pkg/consensus/protocol.go: the handlers of a node. A handler runs to its end before the next one
-- starts. What lies outside the repository is the parameter `env`.
pub mod Finalizing
pub mod Proposing
pub mod Accepting
use peerdns.Prelude.{not, Option, none, some, ◌∷◌, ◌&&◌, ◌==◌, if◌then◌else◌, Bytes, beq}
use peerdns.Signers.{Signer, bls_signer_type}
use peerdns.Storage
use peerdns.Storage.{Mdbx}
use peerdns.Packets.PeerId.{
  PeerId, packet_type_proposal, packet_type_approval, packet_type_finalization,
}
use peerdns.Packets.Consensus.{ConsensusPacket, serialize, deserialize}
use peerdns.Consensus.Effects.{
  ok, err, M, ◌>>◌, fail, crash, logged, not_leader, signer_not_found, sign_failed,
  approver_not_found, quorum_not_reached, broadcast_failed, storage_failure, finalizer_failed,
}
use peerdns.Consensus.ValidatorSet
use peerdns.Consensus.ValidatorSet.{ValidatorSet, Validator, peer_id, signer}
use peerdns.Consensus.MessagePool.{add_message, remove_message}
use peerdns.Consensus.State
use peerdns.Consensus.Node.{
  Env, Node, on_state, proposal_packet, approval_packet, finalization_packet,
}

module _ (env : Env) where
  open env use {db, hash_data, broadcasts, finalizes}

  -- With no network the broadcast is skipped.
  unfoldable pub broadcast_message : ConsensusPacket → M (Node env.db.Contents) (Unit {0})
  broadcast_message pkt n = elim n.network [
    | none ↦ (ok tt, n)
    | some host ↦
        if broadcasts (serialize pkt)
        then (ok tt, record n { sent = serialize pkt ∷ n.sent })
        else (err broadcast_failed, n)
  ]

  -- Record the signed proposal and broadcast it.
  unfoldable pub send_proposal : ConsensusPacket → M (Node env.db.Contents) (Unit {0})
  send_proposal pkt = do on_state (State.add_proposal db pkt); broadcast_message pkt

  -- Sign the hash with the leader's signer, and send the proposal.
  unfoldable pub propose_as :
      Bytes → Validator → Option Signer → M (Node env.db.Contents) (Unit {0})
  propose_as block_data leader none n = fail signer_not_found n
  propose_as block_data leader (some s) n = elim (s.sign (hash_data block_data)) [
    | none ↦ fail sign_failed n
    | some signature ↦
        send_proposal (proposal_packet (hash_data block_data) block_data (peer_id leader) signature)
          n
  ]

  -- `ProposeBlock`
  unfoldable pub propose_block : Bytes → M (Node env.db.Contents) (Unit {0})
  propose_block block_data n = elim (ValidatorSet.current_leader n.validators) [
    | none ↦ fail not_leader n
    | some leader ↦
        if ValidatorSet.is_leader (peer_id leader) n.validators
        then propose_as block_data leader (signer leader bls_signer_type) n
        else fail not_leader n
  ]

  -- `FinalizeBlock`
  unfoldable pub finalize_block : Bytes → M (Node env.db.Contents) (Unit {0})
  finalize_block block_hash n =
      if State.is_finalized block_hash n.state
      then (ok tt, n)
      else if State.has_reached_quorum block_hash n.quorum_threshold n.state
      then (do
        on_state (State.finalize_block db block_hash)
        broadcast_message (finalization_packet block_hash))
          n
      else fail quorum_not_reached n

  -- The quorum check behind an approval; a failed finalization is logged.
  unfoldable pub check_quorum : Bytes → M (Node env.db.Contents) (Unit {0})
  check_quorum block_hash n =
      if State.has_reached_quorum block_hash n.quorum_threshold n.state
      then logged (finalize_block block_hash) n
      else (ok tt, n)

  -- Record the signed approval, broadcast it, and look for a quorum.
  unfoldable pub send_approval : ConsensusPacket → M (Node env.db.Contents) (Unit {0})
  send_approval pkt = do
    on_state (State.add_approval db pkt)
    broadcast_message pkt
    check_quorum pkt.block_hash

  -- Sign the hash, and send the approval. A missing signer is a method call on nil.
  unfoldable pub approve_as :
      Bytes → Validator → Option Signer → M (Node env.db.Contents) (Unit {0})
  approve_as block_hash approver none n = crash n
  approve_as block_hash approver (some s) n = elim (s.sign block_hash) [
    | none ↦ fail sign_failed n
    | some signature ↦ send_approval (approval_packet block_hash (peer_id approver) signature) n
  ]

  -- `ApproveProposal`
  unfoldable pub approve_proposal : Bytes → PeerId → M (Node env.db.Contents) (Unit {0})
  approve_proposal block_hash approver_id n =
      elim (ValidatorSet.get_validator approver_id n.validators) [
        | none ↦ fail approver_not_found n
        | some approver ↦ approve_as block_hash approver (signer approver bls_signer_type) n
      ]

  -- The end of `HandleProposal`: approve if this node is a validator and not the proposer. The host
  -- of a nil network is a panic.
  unfoldable pub auto_approve : ConsensusPacket → M (Node env.db.Contents) (Unit {0})
  auto_approve pkt n = elim n.network [
    | none ↦ crash n
    | some node_id ↦
        if ValidatorSet.is_validator node_id n.validators && not (beq node_id pkt.proposer_id)
        then logged (approve_proposal pkt.block_hash node_id) n
        else (ok tt, n)
  ]

  -- What is verified is recorded; an error of the state ends the handler.
  unfoldable pub accept_proposal :
      ConsensusPacket → Option Signer → M (Node env.db.Contents) (Unit {0})
  accept_proposal pkt none n = crash n
  accept_proposal pkt (some s) n =
      if s.verify pkt.block_hash pkt.signature
      then logged (do on_state (State.add_proposal db pkt); auto_approve pkt) n
      else (ok tt, n)

  -- `HandleProposal`
  unfoldable pub handle_proposal : ConsensusPacket → M (Node env.db.Contents) (Unit {0})
  handle_proposal pkt n =
      if State.has_proposal pkt.block_hash n.state
      then (ok tt, n)
      else elim (ValidatorSet.get_validator pkt.proposer_id n.validators) [
        | none ↦ (ok tt, n)
        | some proposer ↦ accept_proposal pkt (signer proposer bls_signer_type) n
      ]

  unfoldable pub accept_approval :
      ConsensusPacket → Option Signer → M (Node env.db.Contents) (Unit {0})
  accept_approval pkt none n = crash n
  accept_approval pkt (some s) n =
      if s.verify pkt.block_hash pkt.signature
      then logged (do on_state (State.add_approval db pkt); check_quorum pkt.block_hash) n
      else (ok tt, n)

  -- `HandleApproval`
  unfoldable pub handle_approval : ConsensusPacket → M (Node env.db.Contents) (Unit {0})
  handle_approval pkt n = elim (ValidatorSet.get_validator pkt.validator_id n.validators) [
    | none ↦ (ok tt, n)
    | some approver ↦ accept_approval pkt (signer approver bls_signer_type) n
  ]

  -- The call of the block finalizer with what the database holds under the block hash.
  unfoldable pub run_finalizer : Bytes → M (Node env.db.Contents) (Unit {0})
  run_finalizer block_hash n =
      if n.has_finalizer
      then elim (Storage.get db n.state.storage block_hash) [
        | none ↦ fail storage_failure n
        | some block_data ↦
            let called = record n {
              finalizer_calls = (block_hash, block_data) ∷ n.finalizer_calls;
            } in
            if finalizes block_hash block_data
            then (ok tt, called)
            else fail finalizer_failed called
      ]
      else (ok tt, n)

  -- `HandleFinalization`
  unfoldable pub handle_finalization : ConsensusPacket → M (Node env.db.Contents) (Unit {0})
  handle_finalization pkt n =
      if State.is_finalized pkt.block_hash n.state
      then (ok tt, n)
      else logged
          (do
            on_state (State.finalize_block db pkt.block_hash)
            run_finalizer pkt.block_hash
            broadcast_message (finalization_packet pkt.block_hash))
          n

  -- `HandleMessage`; a packet of another type is logged only.
  unfoldable pub handle_message : ConsensusPacket → M (Node env.db.Contents) (Unit {0})
  handle_message pkt n =
      if pkt.packet_type == packet_type_proposal
      then handle_proposal pkt n
      else if pkt.packet_type == packet_type_approval
      then handle_approval pkt n
      else if pkt.packet_type == packet_type_finalization
      then handle_finalization pkt n
      else (ok tt, n)

  -- `messagePool.RemoveMessage` at the end of the packet's goroutine.
  unfoldable pub drop_message : Bytes → M (Node env.db.Contents) (Unit {0})
  drop_message block_hash n =
      (ok tt, record n { message_pool = remove_message block_hash n.message_pool })

  -- One round of the loop of `Start`, with the packet's own goroutine run to its end.
  unfoldable pub receive : Bytes → M (Node env.db.Contents) (Unit {0})
  receive bytes n = elim (deserialize bytes) [
    | none ↦ (ok tt, n)
    | some pkt ↦
        (do handle_message pkt; drop_message pkt.block_hash)
          (record n { message_pool = add_message pkt n.message_pool })
  ]
