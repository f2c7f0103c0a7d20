-- ===== src/Validator/Handlers.antt =====
-- pkg/validator/consensus.go: the methods of the consensus module, and one round of each of its
-- goroutines: the listener, the processing of packets, the elections, and the proposers. A round
-- runs to its end before the next one starts.
use peerdns.Prelude.{
  suc, not, List, Bool, true, false, none, some, [], ◌∷◌, ◌++◌, ◌&&◌, ◌==◌, if◌then◌else◌, Bytes,
  beq,
}
use peerdns.Prelude.Map.{lookup, has, insert}
use peerdns.Signers.{SignerType, bls_signer_type}
use peerdns.Packets.PeerId.{
  PeerId, packet_type_proposal, packet_type_approval, packet_type_finalization,
}
use peerdns.Packets.Consensus.{ConsensusPacket, serialize, deserialize}
use peerdns.Consensus.Effects.{
  Result, ok, err, panic, M, ◌>>◌, fail, crash, logged, signer_not_found, sign_failed,
  broadcast_failed,
}
use peerdns.Consensus.ValidatorSet
use peerdns.Consensus.ValidatorSet.{Account, Score, peer_id}
use peerdns.Consensus.State
use peerdns.Validator.Lifecycle.{set_state, starting, started, stopping, stopped}
use peerdns.Validator.Module.{
  consensus_state_type, Env, ConsensusModule, on_state, proposal_packet, approval_packet,
  finalization_packet, msg_id,
}
use peerdns.Validator.Verifying.{verify_signature}

-- `Start`; what its goroutines do are the rounds below.
unfoldable pub start : {S : Type 0} → ConsensusModule S → ConsensusModule S
start n = record n {
  state_mgr =
      set_state consensus_state_type started (set_state consensus_state_type starting n.state_mgr);
}

-- `Shutdown`; it waits for the goroutines to end.
unfoldable pub shutdown : {S : Type 0} → ConsensusModule S → ConsensusModule S
shutdown n = record n {
  state_mgr =
      set_state consensus_state_type stopped (set_state consensus_state_type stopping n.state_mgr);
}

module _ (env : Env) where
  open env use {db, hash_data, publishes, peer_string}

  -- `Sign` with the account's signer, and what is done with the signature.
  unfoldable pub signed :
      SignerType
      → Bytes
      → (Bytes → M (ConsensusModule env.db.Contents) (Unit {0}))
      → M (ConsensusModule env.db.Contents) (Unit {0})
  signed t data_bytes k n = elim (lookup t n.identity.signers) [
    | none ↦ fail signer_not_found n
    | some s ↦ elim (s.sign data_bytes) [
      | none ↦ fail sign_failed n
      | some signature ↦ k signature n
    ]
  ]

  -- `BroadcastMessage`
  unfoldable pub broadcast_message :
      ConsensusPacket → M (ConsensusModule env.db.Contents) (Unit {0})
  broadcast_message pkt n =
      if publishes (serialize pkt)
      then (ok tt, record n { sent = serialize pkt ∷ n.sent })
      else (err broadcast_failed, n)

  -- Publish the proposal, and record it.
  unfoldable pub send_proposal : ConsensusPacket → M (ConsensusModule env.db.Contents) (Unit {0})
  send_proposal pkt = do broadcast_message pkt; on_state (State.add_proposal db pkt)

  -- `ProposeBlock`
  unfoldable pub propose_block : Bytes → M (ConsensusModule env.db.Contents) (Unit {0})
  propose_block block_data n =
      signed bls_signer_type (hash_data block_data ++ block_data)
        (λ signature.
          send_proposal
            (proposal_packet (hash_data block_data) block_data n.identity.peer_id signature))
        n

  unfoldable pub send_approval : ConsensusPacket → M (ConsensusModule env.db.Contents) (Unit {0})
  send_approval pkt = do broadcast_message pkt; on_state (State.add_approval db pkt)

  -- `ApproveProposal`
  unfoldable pub approve_proposal : Bytes → M (ConsensusModule env.db.Contents) (Unit {0})
  approve_proposal block_hash n =
      signed bls_signer_type block_hash
        (λ signature. send_approval (approval_packet block_hash n.identity.peer_id signature)) n

  unfoldable pub send_finalization :
      ConsensusPacket → M (ConsensusModule env.db.Contents) (Unit {0})
  send_finalization pkt = do
    broadcast_message pkt
    on_state (State.finalize_block db pkt.block_hash)

  -- `FinalizeBlock`
  unfoldable pub finalize_block : Bytes → M (ConsensusModule env.db.Contents) (Unit {0})
  finalize_block block_hash n =
      signed bls_signer_type block_hash
        (λ signature.
          send_finalization (finalization_packet block_hash n.identity.peer_id signature))
        n

  -- The approval of a proposal that was recorded, by a node that is a validator.
  unfoldable pub approve_if_validator : Bytes → M (ConsensusModule env.db.Contents) (Unit {0})
  approve_if_validator block_hash n =
      if ValidatorSet.is_validator n.identity.peer_id n.validator_set
      then logged (approve_proposal block_hash) n
      else (ok tt, n)

  -- `handleProposal`
  unfoldable pub handle_proposal : ConsensusPacket → M (ConsensusModule env.db.Contents) (Unit {0})
  handle_proposal pkt n =
      if beq pkt.proposer_id n.current_leader
      then logged (do on_state (State.add_proposal db pkt); approve_if_validator pkt.block_hash) n
      else (ok tt, n)

  -- The leader's check for a quorum, on a block that is not finalized.
  unfoldable pub check_quorum : Bytes → M (ConsensusModule env.db.Contents) (Unit {0})
  check_quorum block_hash n =
      if beq n.identity.peer_id n.current_leader
        && (State.has_reached_quorum block_hash (ValidatorSet.quorum_size n.validator_set) n.state
            && not (State.is_finalized block_hash n.state))
      then logged (finalize_block block_hash) n
      else (ok tt, n)

  -- `handleApproval`
  unfoldable pub handle_approval : ConsensusPacket → M (ConsensusModule env.db.Contents) (Unit {0})
  handle_approval pkt =
      logged (do on_state (State.add_approval db pkt); check_quorum pkt.block_hash)

  -- `handleFinalization`
  unfoldable pub handle_finalization :
      ConsensusPacket → M (ConsensusModule env.db.Contents) (Unit {0})
  handle_finalization pkt = logged (on_state (State.finalize_block db pkt.block_hash))

  -- The dispatch of `processMessages`
  unfoldable pub handle_message : ConsensusPacket → M (ConsensusModule env.db.Contents) (Unit {0})
  handle_message pkt n =
      if pkt.packet_type == packet_type_proposal
      then handle_proposal pkt n
      else if pkt.packet_type == packet_type_approval
      then handle_approval pkt n
      else if pkt.packet_type == packet_type_finalization
      then handle_finalization pkt n
      else (ok tt, n)

  -- One round of `processMessages`; with no packet it waits.
  unfoldable pub process_from :
      List ConsensusPacket → M (ConsensusModule env.db.Contents) (Unit {0})
  process_from [] n = (ok tt, n)
  process_from (pkt ∷ rest) n = handle_message pkt (record n { message_chan = rest })

  unfoldable pub process_message : M (ConsensusModule env.db.Contents) (Unit {0})
  process_message n = process_from n.message_chan n

  -- A packet whose key was processed before is dropped; another one enters the channel.
  unfoldable pub enqueue : ConsensusPacket → M (ConsensusModule env.db.Contents) (Unit {0})
  enqueue pkt n =
      let key = msg_id peer_string pkt in
      if has key n.processed_msgs then (ok tt, n) else (
        ok tt,
        record n {
          processed_msgs = insert key true n.processed_msgs;
          message_chan = n.message_chan ++ pkt ∷ [];
        },
      )

  -- A packet that arrived, with the verdict on its signature.
  unfoldable pub admit :
      ConsensusPacket → Result Bool → M (ConsensusModule env.db.Contents) (Unit {0})
  admit pkt (ok true) n = enqueue pkt n
  admit pkt (ok false) n = (ok tt, n)
  admit pkt (err e) n = (ok tt, n)
  admit pkt panic n = crash n

  -- One round of `listenToNetwork`
  unfoldable pub listen : Bytes → M (ConsensusModule env.db.Contents) (Unit {0})
  listen bytes n = elim (deserialize bytes) [
    | none ↦ (ok tt, n)
    | some pkt ↦ admit pkt (verify_signature pkt n.validator_set) n
  ]

  -- One round of `leaderElectionRoutine`: a leader's node starts one more proposer.
  unfoldable pub elect :
      (f : Score) → (PeerId → f.Float) → M (ConsensusModule env.db.Contents) (Unit {0})
  elect f score n =
      let vs = ValidatorSet.elect_leader f score n.validator_set in
      elim (ValidatorSet.current_leader vs) [
        | none ↦ (ok tt, record n { validator_set = vs })
        | some leader ↦ (
          ok tt,
          record n {
            validator_set = vs;
            current_leader = peer_id leader;
            proposers =
                if beq (peer_id leader) n.identity.peer_id then suc n.proposers else n.proposers;
          },
        )
      ]

  -- One round of a proposer, with the text that it proposes; with no proposer nothing happens.
  unfoldable pub propose_next : Bytes → M (ConsensusModule env.db.Contents) (Unit {0})
  propose_next block_data n =
      if n.proposers == 0 then (ok tt, n) else logged (propose_block block_data) n
