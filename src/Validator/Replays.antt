-- ===== src/Validator/Replays.antt =====
-- pkg/validator/consensus.go: an approval and a finalization are signed alike.
use mathlib.Core.Path.{subst}
use peerdns.Prelude.{◌≡◌, refl, ◌∙◌, sym, arith, true, false, some, [], ◌∷◌, ◌++◌, Bytes, beq_refl}
use peerdns.Prelude.Map.{has, insert}
use peerdns.Signers.{
  is_known, signer_type_from_uint32, signer_type_uint32, signer_type_from_uint32-uint32,
}
use peerdns.Packets.PeerId.{packet_type_approval, packet_type_finalization}
use peerdns.Packets.Consensus.{ConsensusPacket, serialize, deserialize}
use peerdns.Packets.Consensus.RoundTrip.{IsWireable, received, deserialize-serialize_consensus}
use peerdns.Consensus.Effects.{Result, ok, err, panic}
use peerdns.Consensus.ValidatorSet.{ValidatorSet}
use peerdns.Consensus.State.{is_finalized}
use peerdns.Consensus.State.Approvals.{finalize_block-finalized}
use peerdns.Validator.Module.{Env, ConsensusModule, msg_id}
use peerdns.Validator.Verifying.{data_to_verify, signer_id, verify_signature}
use peerdns.Validator.Handlers.{
  handle_finalization, handle_message, process_from, process_message, enqueue, admit, listen,
}
use peerdns.Validator.Runs.{Event, arrives, processes, run, step}

-- The packet with its type changed to a finalization.
abbrev pub as_finalization : ConsensusPacket → ConsensusPacket
as_finalization pkt = record pkt { packet_type = packet_type_finalization }

module _ (pkt : ConsensusPacket) (e : pkt.packet_type ≡ packet_type_approval) where
  approval_data : data_to_verify pkt ≡ some pkt.block_hash
  unfolding data_to_verify
  approval_data = ground (arith, e)

  approval_signer : signer_id pkt ≡ pkt.validator_id
  unfolding signer_id
  approval_signer = ground (arith, e)

  -- What arrives of the forged packet verifies as the approval does.
  forged_verifies :
      (vs : ValidatorSet)
      → is_known pkt.signer ≡ true
      → verify_signature (received (as_finalization pkt)) vs ≡ verify_signature pkt vs
  unfolding verify_signature data_to_verify signer_id
  forged_verifies vs known =
      let same : signer_type_from_uint32 (signer_type_uint32 pkt.signer) ≡ pkt.signer =
        rw known at (signer_type_from_uint32-uint32 pkt.signer) in
      subst
        (λ t.
          verify_signature (record (as_finalization pkt) { signer = t; block_data = [] }) vs
          ≡ verify_signature pkt vs)
        (sym same) (rw (verify_signature, approval_data, approval_signer) refl)

result_same {ℓ} :
    {A : Type ℓ} (r : Result (Unit {0})) (x : A)
    → (elim r as (λ _. A) [ ok a ↦ x | err e ↦ x | panic ↦ x ]) ≡ x
result_same (ok a) x = refl
result_same (err e) x = refl
result_same panic x = refl

module _ (env : Env) where
  open env use {db}

  run_two :
      (e1 e2 : Event) (n m : ConsensusModule env.db.Contents)
      → step env e1 n ≡ (ok tt, m)
      → run env (e1 ∷ e2 ∷ []) n ≡ (step env e2 m).1
  unfolding run
  run_two e1 e2 n m h =
      subst
        (λ r.
          (elim r.0 as (λ _. ConsensusModule env.db.Contents) [
            | ok a ↦ run env (e2 ∷ []) r.1
            | err x ↦ run env (e2 ∷ []) r.1
            | panic ↦ r.1
          ])
          ≡ (step env e2 m).1)
        (sym h) (result_same (step env e2 m).0 (step env e2 m).1)

  -- A packet that verifies and is new enters the channel.
  listen_new :
      (n : ConsensusModule env.db.Contents) (bytes : Bytes) (pkt : ConsensusPacket)
      → deserialize bytes ≡ some pkt
      → verify_signature pkt n.validator_set ≡ ok true
      → has (msg_id env.peer_string pkt) n.processed_msgs ≡ false
      → listen env bytes n ≡ (
        ok tt,
        record n {
          processed_msgs = insert (msg_id env.peer_string pkt) true n.processed_msgs;
          message_chan = n.message_chan ++ pkt ∷ [];
        },
      )
  unfolding listen admit enqueue
  listen_new n bytes pkt d v fresh = rw (listen, d, v, admit, enqueue, fresh) refl

  -- A finalization that is processed finalizes its block.
  handle_message_finalizes :
      (n : ConsensusModule env.db.Contents) (pkt : ConsensusPacket)
      → pkt.packet_type ≡ packet_type_finalization
      → is_finalized pkt.block_hash (handle_message env pkt n).1.state ≡ true
  unfolding handle_message handle_finalization
  handle_message_finalizes n pkt e = ground (
    arith,
    e,
    finalize_block-finalized db pkt.block_hash pkt.block_hash n.state,
    beq_refl pkt.block_hash,
  )

-- Whoever sees an approval can finalize the block on another node: an approval whose signature
-- verifies there, sent again as a finalization packet, is taken by a node that has not processed a
-- packet of that validator for the block, and finalizes the block with no quorum. The node is idle,
-- and the approval has lengths that the wire allows and a scheme that has a number there.
pub finalized_by_replay :
    (env : Env) (n : ConsensusModule env.db.Contents) (pkt : ConsensusPacket)
    → IsWireable pkt
    → is_known pkt.signer ≡ true
    → pkt.packet_type ≡ packet_type_approval
    → verify_signature pkt n.validator_set ≡ ok true
    → n.message_chan ≡ []
    → has (msg_id env.peer_string pkt) n.processed_msgs ≡ false
    → is_finalized pkt.block_hash
        (run env (arrives (serialize (as_finalization pkt)) ∷ processes ∷ []) n).state
      ≡ true
unfolding run step process_message process_from msg_id
finalized_by_replay env n pkt w known e v idle fresh =
    let f = as_finalization pkt in
    let arrived =
      listen_new env n (serialize f) (received f)
        (deserialize-serialize_consensus f (record {
          type_byte = omega arith;
          proposer_fits = w.proposer_fits;
          validator_fits = w.validator_fits;
          hash_fits = w.hash_fits;
          data_fits = w.data_fits;
          signature_fits = w.signature_fits;
        }))
        (forged_verifies pkt e n.validator_set known ∙ v) fresh in
    rw (run_two env (arrives (serialize f)) processes n _ arrived, idle)
      (handle_message_finalizes env _ (received f) refl)
