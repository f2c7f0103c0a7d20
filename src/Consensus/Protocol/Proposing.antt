-- ===== src/Consensus/Protocol/Proposing.antt =====
-- What `ProposeBlock` and `HandleProposal` of pkg/consensus/protocol.go do with a block.
use peerdns.Prelude.{
  ◌≡◌, ◌≢◌, ◌↔◌, refl, true, Option, none, some, List, ◌∷◌, arith, Bytes, beq_iff, beq_refl,
  Option-cases, inl, inr, ap, ◌∙◌, sym, hex,
}
use peerdns.Prelude.Map.{insert, lookup-insert}
use peerdns.Signers.{Signer, bls_signer_type}
use peerdns.Storage
use peerdns.Storage.{IsStore}
use peerdns.Packets.PeerId.{packet_type_proposal}
use peerdns.Packets.Consensus.{ConsensusPacket, serialize, deserialize}
use peerdns.Packets.Consensus.RoundTrip.{IsWireable, received, deserialize-serialize_consensus}
use peerdns.Consensus.Effects.{ok, err, not_leader}
use peerdns.Consensus.ValidatorSet.{
  ValidatorSet, Validator, peer_id, signer, is_leader, current_leader, get_validator,
}
use peerdns.Consensus.State.{State, has_proposal, persist, add_proposal}
use peerdns.Consensus.Node.{Env, Node, proposal_packet}
use peerdns.Consensus.Protocol.{broadcast_message, send_proposal, propose_as, propose_block}
use peerdns.Consensus.Safety.{IsTrusted}

-- The leader of a keyed set is the leader by its own identifier.
leader_is_leader :
    (vs : ValidatorSet) (w : Validator)
    → IsTrusted vs
    → current_leader vs ≡ some w
    → is_leader (peer_id w) vs ≡ true
unfolding current_leader is_leader get_validator
leader_is_leader vs w t found =
    let e = t.keyed vs.leader_id w found in (beq_iff vs.leader_id (peer_id w)).1 (sym e)

-- What a node has done when a proposal of its leader has gone out: the proposal stands in the state
-- and the block in the database under its hash, and the last message sent decodes to the proposal.
pub record Proposed (env : Env) (w : Validator) (block_data signature : Bytes)
    (n : Node env.db.Contents) : Type 0 where
  pub recorded : has_proposal (env.hash_data block_data) n.state ≡ true
  pub stored : env.db.get n.state.storage (env.hash_data block_data) ≡ some block_data
  pub message : Bytes
  pub others : List Bytes
  pub went_out : n.sent ≡ message ∷ others
  pub decodes : ConsensusPacket
  pub decoded : deserialize message ≡ some decodes
  pub proposer : decodes.proposer_id ≡ peer_id w
  pub hash : decodes.block_hash ≡ env.hash_data block_data
  pub block : decodes.block_data ≡ block_data
  pub signed : decodes.signature ≡ signature

-- The node when the proposal has gone out.
abbrev proposed_node :
    (env : Env) → ConsensusPacket → env.db.Contents → Node env.db.Contents → Node env.db.Contents
proposed_node env pkt contents n = record n {
  state = record (n.state) {
    proposals = insert (hex pkt.block_hash) pkt n.state.proposals;
    storage = contents;
  };
  sent = serialize pkt ∷ n.sent;
}

send_proposal_lem :
    (env : Env) (pkt : ConsensusPacket) (n : Node env.db.Contents) (contents : env.db.Contents)
    (host : Bytes)
    → pkt.packet_type ≡ packet_type_proposal
    → env.db.put n.state.storage pkt.block_hash pkt.block_data ≡ some contents
    → n.network ≡ some host
    → env.broadcasts (serialize pkt) ≡ true
    → send_proposal env pkt n ≡ (ok tt, proposed_node env pkt contents n)
unfolding send_proposal add_proposal persist broadcast_message Storage.set
send_proposal_lem env pkt n contents host ty put net sends = ground arith

has_proposal-insert :
    {S : Type 0} (h : Bytes) (pkt : ConsensusPacket) (cs : State S) (contents : S)
    → has_proposal h (record cs { proposals = insert (hex h) pkt cs.proposals; storage = contents })
      ≡ true
unfolding has_proposal
has_proposal-insert h pkt cs contents =
    ground (arith, lookup-insert (hex h) (hex h) pkt cs.proposals, beq_refl (hex h))

propose_as-signed :
    (env : Env) (block_data : Bytes) (n : Node env.db.Contents) (w : Validator) (s : Signer)
    (signature : Bytes)
    → s.sign (env.hash_data block_data) ≡ some signature
    → propose_as env block_data w (some s) n
      ≡ send_proposal env
          (proposal_packet (env.hash_data block_data) block_data (peer_id w) signature)
          n
unfolding propose_as
propose_as-signed env block_data n w s signature signs = rw signs

propose_block-leader :
    (env : Env) (block_data : Bytes) (n : Node env.db.Contents) (w : Validator)
    → IsTrusted n.validators
    → current_leader n.validators ≡ some w
    → propose_block env block_data n ≡ propose_as env block_data w (signer w bls_signer_type) n
unfolding propose_block
propose_block-leader env block_data n w t found =
    rw (found, propose_block, leader_is_leader n.validators w t found)

-- With a leader in a keyed set whose BLS signer signs the block's hash, a database that takes the
-- block and a network that takes the message, `ProposeBlock` succeeds and leaves the node as
-- `Proposed` says: recorded, stored, and sent in a form that decodes to the same block, hash,
-- proposer and signature, whose lengths fit 32 bits.
pub propose_block-Proposed :
    (env : Env) (block_data : Bytes) (n : Node env.db.Contents) (w : Validator) (s : Signer)
    (signature host : Bytes) (contents : env.db.Contents)
    → IsTrusted n.validators
    → IsStore env.db
    → current_leader n.validators ≡ some w
    → signer w bls_signer_type ≡ some s
    → s.sign (env.hash_data block_data) ≡ some signature
    → env.db.put n.state.storage (env.hash_data block_data) block_data ≡ some contents
    → n.network ≡ some host
    → env.broadcasts
        (serialize (proposal_packet (env.hash_data block_data) block_data (peer_id w) signature))
      ≡ true
    → IsWireable (proposal_packet (env.hash_data block_data) block_data (peer_id w) signature)
    → ((propose_block env block_data n).0 ≡ ok tt)
      × Proposed env w block_data signature (propose_block env block_data n).1
propose_block-Proposed env block_data n w s signature host contents t db found has signs put net
      sends fits =
    rw done (
      refl,
      record {
        recorded = has_proposal-insert (env.hash_data block_data) pkt n.state contents;
        stored = db.get-put_self n.state.storage contents (env.hash_data block_data) block_data put;
        message = serialize pkt;
        others = n.sent;
        went_out = refl;
        decodes = received pkt;
        decoded = deserialize-serialize_consensus pkt fits;
        proposer = refl;
        hash = refl;
        block = refl;
        signed = refl;
      },
    )
  where
    pkt : ConsensusPacket
    pkt = proposal_packet (env.hash_data block_data) block_data (peer_id w) signature

    done : propose_block env block_data n ≡ (ok tt, proposed_node env pkt contents n)
    done =
        propose_block-leader env block_data n w t found
        ∙ rw has (propose_as-signed env block_data n w s signature signs)
        ∙ send_proposal_lem env pkt n contents host refl put net sends

propose_as-not_leader :
    (env : Env) (block_data : Bytes) (w : Validator) (s : Option Signer) (n : Node env.db.Contents)
    → (propose_as env block_data w s n).0 ≢ err not_leader
unfolding propose_as send_proposal add_proposal persist broadcast_message
propose_as-not_leader env block_data w none n = ground arith
propose_as-not_leader env block_data w (some s) n = ground arith

has_leader :
    (env : Env) (block_data : Bytes) (n : Node env.db.Contents)
    → IsTrusted n.validators
    → (propose_block env block_data n).0 ≡ err not_leader
    → current_leader n.validators ≡ none
has_leader env block_data n t h = elim (Option-cases (current_leader n.validators)) [
  | inl e ↦ e
  | inr (w, e) ↦ absurd (
      propose_as-not_leader env block_data w (signer w bls_signer_type) n
        (ap (λ r. r.0) (sym (propose_block-leader env block_data n w t e)) ∙ h))
]

-- In a keyed set of validators `ProposeBlock` fails with "not the leader" exactly where no leader is
-- in the set. So it goes on whoever the host of the node is: the host's identifier is not asked for.
pub propose_block-not_leader_iff :
    (env : Env) (block_data : Bytes) (n : Node env.db.Contents)
    → IsTrusted n.validators
    → ((propose_block env block_data n).0 ≡ err not_leader) ↔ (current_leader n.validators ≡ none)
unfolding propose_block
propose_block-not_leader_iff env block_data n t =
    (has_leader env block_data n t, λ e. rw (e, propose_block))
