-- ===== src/Consensus/Protocol/Accepting.antt =====
-- Which proposals `HandleProposal` of pkg/consensus/protocol.go records.
use peerdns.Prelude.{
  ◌≡◌, ◌↔◌, ◌⊎◌, refl, true, false, not, ◌&&◌, Option, none, some, arith, Bytes, beq, beq_refl,
  Bool-cases, Option-cases, inl, inr, hex,
}
use peerdns.Prelude.Map.{Map, insert, lookup-insert}
use peerdns.Signers.{Signer, bls_signer_type}
use peerdns.Packets.PeerId.{packet_type_proposal}
use peerdns.Packets.Consensus.{ConsensusPacket}
use peerdns.Consensus.Effects.{◌>>◌}
use peerdns.Consensus.Effects.Keeps.{Keeps, kept, chain-Keeps, logged_keeps, if_keeps, option_keeps}
use peerdns.Consensus.ValidatorSet
use peerdns.Consensus.ValidatorSet.{Validator, signer, get_validator}
use peerdns.Consensus.State.{
  State, has_proposal, persist, add_proposal, add_approval, record_approval,
}
use peerdns.Consensus.State
use peerdns.Consensus.Node.{Env, Node, on_state}
use peerdns.Consensus.Protocol.{
  broadcast_message, finalize_block, check_quorum, send_approval, approve_as, approve_proposal,
  auto_approve, accept_proposal, handle_proposal,
}
use peerdns.Consensus.Safety.{Verifies}

module _ (env : Env) (proposals : Map ConsensusPacket) where
  open env use {db}

  abbrev P : Node env.db.Contents → Type 0
  P n = n.state.proposals ≡ proposals

  broadcast_message-Keeps : (pkt : ConsensusPacket) → Keeps P (broadcast_message env pkt)
  unfolding broadcast_message
  broadcast_message-Keeps pkt n p = record { holds = ground arith }

  finalize_block-Keeps : (h : Bytes) → Keeps P (finalize_block env h)
  unfolding finalize_block broadcast_message State.finalize_block persist
  finalize_block-Keeps h n p = record { holds = ground arith }

  check_quorum-Keeps : (h : Bytes) → Keeps P (check_quorum env h)
  unfolding check_quorum
  check_quorum-Keeps h n p =
      if_keeps P (State.has_reached_quorum h n.quorum_threshold n.state)
        (λ _. logged_keeps P (finalize_block env h) n (finalize_block-Keeps h n p)) (λ _. kept P p)

  send_approval-Keeps : (pkt : ConsensusPacket) → Keeps P (send_approval env pkt)
  unfolding send_approval add_approval record_approval persist
  send_approval-Keeps pkt n p =
      chain-Keeps P (on_state (State.add_approval db pkt)) _ n (record { holds = ground arith })
        (λ n' p'.
          chain-Keeps P (broadcast_message env pkt) (check_quorum env pkt.block_hash) n'
            (broadcast_message-Keeps pkt n' p') (check_quorum-Keeps pkt.block_hash))

  approve_as-Keeps :
      (h : Bytes) (w : Validator) (s : Option Signer) → Keeps P (approve_as env h w s)
  unfolding approve_as
  approve_as-Keeps h w none n p = kept P p
  approve_as-Keeps h w (some s) n p =
      option_keeps P (s.sign h) (kept P p) (λ sig e. send_approval-Keeps _ n p)

  approve_proposal-Keeps : (h id : Bytes) → Keeps P (approve_proposal env h id)
  unfolding approve_proposal
  approve_proposal-Keeps h id n p =
      option_keeps P (ValidatorSet.get_validator id n.validators) (kept P p)
        (λ w e. approve_as-Keeps h w (signer w bls_signer_type) n p)

  auto_approve-Keeps : (pkt : ConsensusPacket) → Keeps P (auto_approve env pkt)
  unfolding auto_approve
  auto_approve-Keeps pkt n p = option_keeps P n.network (kept P p) (λ id e.
      if_keeps P (ValidatorSet.is_validator id n.validators && not (beq id pkt.proposer_id))
        (λ _.
          logged_keeps P (approve_proposal env pkt.block_hash id) n
            (approve_proposal-Keeps pkt.block_hash id n p))
        (λ _. kept P p))

add_proposal-proposals :
    (env : Env) (pkt : ConsensusPacket) (cs : State env.db.Contents)
    → pkt.packet_type ≡ packet_type_proposal
    → (add_proposal env.db pkt cs).1.proposals ≡ insert (hex pkt.block_hash) pkt cs.proposals
unfolding add_proposal persist
add_proposal-proposals env pkt cs ty = ground arith

-- A verified proposal is recorded, whatever its automatic approval comes to.
accept_proposal-verified :
    (env : Env) (pkt : ConsensusPacket) (s : Signer) (n : Node env.db.Contents)
    → pkt.packet_type ≡ packet_type_proposal
    → s.verify pkt.block_hash pkt.signature ≡ true
    → (accept_proposal env pkt (some s) n).1.state.proposals
      ≡ insert (hex pkt.block_hash) pkt n.state.proposals
unfolding accept_proposal
accept_proposal-verified env pkt s n ty ver =
    rw ver
      (logged_keeps Q (on_state (State.add_proposal env.db pkt) >> auto_approve env pkt) n (
        chain-Keeps Q (on_state (State.add_proposal env.db pkt)) (auto_approve env pkt) n
          (record { holds = added }) (auto_approve-Keeps env _ pkt))).holds
  where
    Q : Node env.db.Contents → Type 0
    Q m = m.state.proposals ≡ insert (hex pkt.block_hash) pkt n.state.proposals

    added : Q (on_state (State.add_proposal env.db pkt) n).1
    added = add_proposal-proposals env pkt n.state ty

handle_proposal-new :
    (env : Env) (pkt : ConsensusPacket) (n : Node env.db.Contents) (w : Validator)
    → has_proposal pkt.block_hash n.state ≡ false
    → get_validator pkt.proposer_id n.validators ≡ some w
    → handle_proposal env pkt n ≡ accept_proposal env pkt (signer w bls_signer_type) n
unfolding handle_proposal
handle_proposal-new env pkt n w new found = rw (new, found)

handle_proposal-unknown :
    (env : Env) (pkt : ConsensusPacket) (n : Node env.db.Contents)
    → get_validator pkt.proposer_id n.validators ≡ none
    → (handle_proposal env pkt n).1 ≡ n
unfolding handle_proposal
handle_proposal-unknown env pkt n e = ground arith

accept_proposal-unverified :
    (env : Env) (pkt : ConsensusPacket) (s : Signer) (n : Node env.db.Contents)
    → s.verify pkt.block_hash pkt.signature ≡ false
    → (accept_proposal env pkt (some s) n).1 ≡ n
unfolding accept_proposal
accept_proposal-unverified env pkt s n e = rw e

accept_proposal-no_signer :
    (env : Env) (pkt : ConsensusPacket) (n : Node env.db.Contents)
    → (accept_proposal env pkt none n).1 ≡ n
unfolding accept_proposal
accept_proposal-no_signer env pkt n = refl

handle_proposal-known :
    (env : Env) (pkt : ConsensusPacket) (n : Node env.db.Contents)
    → has_proposal pkt.block_hash n.state ≡ true
    → (handle_proposal env pkt n).1 ≡ n
unfolding handle_proposal
handle_proposal-known env pkt n e = rw e

accept_proposal-cases :
    (env : Env) (pkt : ConsensusPacket) (n : Node env.db.Contents) (w : Validator)
    (s : Option Signer)
    → get_validator pkt.proposer_id n.validators ≡ some w
    → signer w bls_signer_type ≡ s
    → ((accept_proposal env pkt s n).1 ≡ n)
      ⊎ Verifies n.validators pkt.proposer_id pkt.block_hash pkt.signature
accept_proposal-cases env pkt n w none found e = inl (accept_proposal-no_signer env pkt n)
accept_proposal-cases env pkt n w (some s) found e =
    elim (Bool-cases (s.verify pkt.block_hash pkt.signature)) [
      | inl ver ↦ inr (record { validator = w; bls = s; member = found; signs = e; verified = ver })
      | inr not_ver ↦ inl (accept_proposal-unverified env pkt s n not_ver)
    ]

-- Either the handler leaves the node as it was, or the proposal verifies.
handle_proposal-cases :
    (env : Env) (pkt : ConsensusPacket) (n : Node env.db.Contents)
    → ((handle_proposal env pkt n).1 ≡ n)
      ⊎ Verifies n.validators pkt.proposer_id pkt.block_hash pkt.signature
handle_proposal-cases env pkt n = elim (Bool-cases (has_proposal pkt.block_hash n.state)) [
  | inl known ↦ inl (handle_proposal-known env pkt n known)
  | inr new ↦ elim (Option-cases (get_validator pkt.proposer_id n.validators)) [
    | inl e ↦ inl (handle_proposal-unknown env pkt n e)
    | inr (w, e) ↦
        rw (handle_proposal-new env pkt n w new e)
          (accept_proposal-cases env pkt n w (signer w bls_signer_type) e refl)
  ]
]

has_proposal-inserted :
    {S : Type 0} (h : Bytes) (pkt : ConsensusPacket) (cs cs' : State S)
    → cs'.proposals ≡ insert (hex h) pkt cs.proposals
    → has_proposal h cs' ≡ true
unfolding has_proposal
has_proposal-inserted h pkt cs cs' e =
    ground (arith, lookup-insert (hex h) (hex h) pkt cs.proposals, beq_refl (hex h))

handle_proposal-verified :
    (env : Env) (pkt : ConsensusPacket) (n : Node env.db.Contents)
    → pkt.packet_type ≡ packet_type_proposal
    → Verifies n.validators pkt.proposer_id pkt.block_hash pkt.signature
    → has_proposal pkt.block_hash (handle_proposal env pkt n).1.state ≡ true
handle_proposal-verified env pkt n ty v = elim (Bool-cases (has_proposal pkt.block_hash n.state)) [
  | inl known ↦ rw (handle_proposal-known env pkt n known) known
  | inr new ↦
      rw (handle_proposal-new env pkt n v.validator new v.member, v.signs)
        (has_proposal-inserted pkt.block_hash pkt n.state _
          (accept_proposal-verified env pkt v.bls n ty v.verified))
]

-- After a proposal packet was handled, its block has a proposal exactly where it had one before, or
-- where the packet names a validator of the set whose BLS signer verifies the packet's signature on
-- the block hash. Any validator will do, leader or not.
pub handle_proposal-records_iff :
    (env : Env) (pkt : ConsensusPacket) (n : Node env.db.Contents)
    → pkt.packet_type ≡ packet_type_proposal
    → (has_proposal pkt.block_hash (handle_proposal env pkt n).1.state ≡ true) ↔ (
        (has_proposal pkt.block_hash n.state ≡ true)
        ⊎ Verifies n.validators pkt.proposer_id pkt.block_hash pkt.signature)
handle_proposal-records_iff env pkt n ty = (
  λ h. elim (handle_proposal-cases env pkt n) [ inl same ↦ inl (rw same at h) | inr v ↦ inr v ],
  λ h. elim h [
    | inl known ↦ rw (handle_proposal-known env pkt n known) known
    | inr v ↦ handle_proposal-verified env pkt n ty v
  ],
)
