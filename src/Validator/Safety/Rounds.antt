-- ===== src/Validator/Safety/Rounds.antt =====
-- The handlers and rounds of pkg/validator/consensus.go keep the safety invariant.
use peerdns.Prelude.{
  ◌≡◌, ◌≤◌, ◌⊎◌, inl, inr, refl, ◌==◌, ==_iff, true, some, List, [], ◌∷◌, Bytes, beq, length,
}
use peerdns.Prelude.Map.{lookup, Distinct}
use peerdns.Consensus.Safety.Quorum.{some_of_has}
use peerdns.Signers.{Signer, bls_signer_type}
use peerdns.Packets.PeerId.{
  PeerId, packet_type_proposal, packet_type_approval, packet_type_finalization,
}
use peerdns.Packets.Consensus.{ConsensusPacket}
use peerdns.Consensus.Effects.{Result, ok, err, panic, ◌>>◌}
use peerdns.Consensus.Effects.Keeps.{Keeps, After, kept, chain-Keeps, logged_keeps, if_keeps}
use peerdns.Consensus.ValidatorSet
use peerdns.Consensus.ValidatorSet.{
  ValidatorSet, Validator, Account, Score, quorum_size, get_validator, signer, elect_leader,
  best_of,
}
use peerdns.Consensus.State.{State, approvals_for, is_finalized, new_state}
use peerdns.Consensus.State
use peerdns.Validator.Module.{Env, ConsensusModule, on_state, new_consensus, approval_packet}
use peerdns.Validator.Lifecycle.{StateManager}
use peerdns.Validator.Handlers.{
  start, approve_proposal, approve_if_validator, handle_proposal, handle_message, process_from,
  process_message,
}
use peerdns.Validator.Runs.{
  Event, arrives, processes, elects, proposes, Carries, Arrived, step, run,
}
use peerdns.Validator.Safety.{IsSigned, IsAuthentic, AllAuthentic, Finalizes, IsOwn, IsSafe}
use peerdns.Validator.Safety.Steps.{add_proposal-IsBacked}
use peerdns.Validator.Safety.Calls.{
  IsAuthentic-vote, on_state_keeps, propose_next-Keeps, signed_keeps, send_approval_keeps,
  handle_approval_keeps, handle_finalization_keeps,
}
use peerdns.Validator.Safety.Listening.{listen-Keeps, elect-Keeps}

module _ (env : Env) (identity : Account) (vs : ValidatorSet) (A : ConsensusPacket → Type 0) where
  open env use {db}

  -- The invariant of the modules of this section.
  abbrev P : ConsensusModule env.db.Contents → Type 0
  P = IsSafe identity vs A

  module _ (own : IsOwn identity vs) where
    -- The node's own signature is one of its account in the set.
    own_signed :
        (n : ConsensusModule env.db.Contents) (block_hash sig : Bytes) (s : Signer)
        → P n
        → ValidatorSet.is_validator n.identity.peer_id n.validator_set ≡ true
        → lookup bls_signer_type n.identity.signers ≡ some s
        → s.sign block_hash ≡ some sig
        → IsSigned vs n.identity.peer_id block_hash sig
    unfolding ValidatorSet.is_validator get_validator signer
    own_signed n block_hash sig s p e found signs =
        let (w, there) = some_of_has (lookup n.identity.peer_id n.validator_set.validators) e in
        let at_set = rw (p.same_validators, p.same_identity) at there in
        let found' = rw p.same_identity at found in
        record {
          validator = w;
          scheme_type = bls_signer_type;
          scheme = s;
          member = rw (p.same_identity) at_set;
          signs = rw (own.member w at_set) found';
          verified = own.sound s found' block_hash sig signs;
        }

    approve_if_validator-Keeps :
        (block_hash : Bytes) → Keeps P (approve_if_validator env block_hash)
    unfolding approve_if_validator approve_proposal
    approve_if_validator-Keeps block_hash n p =
        if_keeps P (ValidatorSet.is_validator n.identity.peer_id n.validator_set)
          (λ there. logged_keeps P (approve_proposal env block_hash) n (
            signed_keeps env identity vs A _ _ n p (λ s sig found e.
              send_approval_keeps env identity vs A
                (approval_packet block_hash n.identity.peer_id sig) n p
                (own_signed n block_hash sig s p there found e))))
          (λ _. kept P p)

    handle_proposal-Keeps : (pkt : ConsensusPacket) → Keeps P (handle_proposal env pkt)
    unfolding handle_proposal
    handle_proposal-Keeps pkt n p =
        if_keeps P (beq pkt.proposer_id n.current_leader)
          (λ _.
            logged_keeps P
              (on_state (State.add_proposal db pkt) >> approve_if_validator env pkt.block_hash) n
              (chain-Keeps P (on_state (State.add_proposal db pkt))
                (approve_if_validator env pkt.block_hash) n
                (on_state_keeps env identity vs A (State.add_proposal db pkt) n p
                  (add_proposal-IsBacked db n.state p.backed pkt))
                (approve_if_validator-Keeps pkt.block_hash)))
          (λ _. kept P p)

    handle_message_keeps :
        (pkt : ConsensusPacket) (n : ConsensusModule env.db.Contents)
        → P n
        → IsAuthentic vs A pkt
        → After P (handle_message env pkt n)
    unfolding handle_message
    handle_message_keeps pkt n p a =
        if_keeps P (pkt.packet_type == packet_type_proposal) (λ _. handle_proposal-Keeps pkt n p)
          (λ _.
            if_keeps P (pkt.packet_type == packet_type_approval)
              (λ e. handle_approval_keeps env identity vs A pkt n p (IsAuthentic-vote vs A pkt e a))
              (λ _.
                if_keeps P (pkt.packet_type == packet_type_finalization)
                  (λ e. handle_finalization_keeps env identity vs A pkt n p (
                    inr (record {
                      pkt = pkt;
                      finalization = (==_iff pkt.packet_type packet_type_finalization).0 e;
                      about = refl;
                      authentic = a;
                    })))
                  (λ _. kept P p)))

    process_from_keeps :
        (pkts : List ConsensusPacket) (n : ConsensusModule env.db.Contents)
        → P n
        → AllAuthentic vs A pkts
        → After P (process_from env pkts n)
    unfolding process_from
    process_from_keeps [] n p q = kept P p
    process_from_keeps (pkt ∷ rest) n p q =
        handle_message_keeps pkt (record n { message_chan = rest })
          (record {
            same_identity = p.same_identity;
            same_validators = p.same_validators;
            same_threshold = p.same_threshold;
            queued = q.1;
            backed = p.backed;
          })
          q.0

    step-Keeps :
        (e : Event) → ((pkt : ConsensusPacket) → Carries e pkt → A pkt) → Keeps P (step env e)
    unfolding step process_message
    step-Keeps (arrives bytes) heard n p = listen-Keeps env identity vs A bytes heard n p
    step-Keeps processes heard n p = process_from_keeps n.message_chan n p p.queued
    step-Keeps (elects f score) heard n p = elect-Keeps env identity vs A f score n p
    step-Keeps (proposes block_data) heard n p = propose_next-Keeps env identity vs A block_data n p

    after_step :
        (r : Result (Unit {0})) (es : List Event) (n : ConsensusModule env.db.Contents)
        → P n
        → P (run env es n)
        → P (elim r as (λ _. ConsensusModule env.db.Contents) [
          | ok a ↦ run env es n
          | err x ↦ run env es n
          | panic ↦ n
        ])
    after_step (ok a) es n p q = q
    after_step (err x) es n p q = q
    after_step panic es n p q = p

    pub run-IsSafe :
        (es : List Event) (n : ConsensusModule env.db.Contents)
        → ((pkt : ConsensusPacket) → Arrived es pkt → A pkt)
        → P n
        → P (run env es n)
    unfolding run
    run-IsSafe [] n heard p = p
    run-IsSafe (e ∷ es) n heard p =
        let p' = (step-Keeps e (λ pkt c. heard pkt (inl c)) n p).holds in
        after_step (step env e n).0 es (step env e n).1 p'
          (run-IsSafe es (step env e n).1 (λ pkt a. heard pkt (inr a)) p')

pub new_consensus-IsSafe :
    {S : Type 0} (identity : Account) (vs : ValidatorSet) (A : ConsensusPacket → Type 0)
    (contents : S) (sm : StateManager)
    → IsSafe identity vs A (start (new_consensus identity contents vs sm))
unfolding start new_consensus new_state approvals_for is_finalized lookup
new_consensus-IsSafe identity vs A contents sm = record {
  same_identity = refl;
  same_validators = refl;
  same_threshold = refl;
  queued = tt;
  backed = record { distinct = λ h. tt; approved = λ h id sig e. cc; justified = λ h e. cc };
}

-- The state of a new consensus module that was started, after a history.
abbrev pub history :
    (env : Env)
    → Account
    → ValidatorSet
    → env.db.Contents
    → StateManager
    → List Event
    → State env.db.Contents
history env identity vs contents sm events =
    (run env events (start (new_consensus identity contents vs sm))).state

-- A new consensus module that was started and whose listener, processing, elections and proposers
-- run in any order finalizes a block only with a quorum of approvals, at least `quorum_size` entries
-- under distinct validators, each with a signature on the block hash that a scheme of the validator
-- verifies; or where a finalization packet for the block arrived, among the data that the listener
-- received, with a signature on the block hash that a scheme of its validator verifies. If the node
-- is a validator, the set holds its own account, and its BLS signer verifies what it signs.
pub finalized_by_quorum_or_packet :
    (env : Env) (identity : Account) (vs : ValidatorSet) (contents : env.db.Contents)
    (sm : StateManager) (events : List Event) (h : Bytes)
    → IsOwn identity vs
    → is_finalized h (history env identity vs contents sm events) ≡ true
    → let approvals = approvals_for h (history env identity vs contents sm events) in
      ((quorum_size vs ≤ length approvals)
        × Distinct approvals
        × ((id : PeerId) (sig : Bytes) → lookup id approvals ≡ some sig → IsSigned vs id h sig))
      ⊎ Finalizes vs (Arrived events) h
finalized_by_quorum_or_packet env identity vs contents sm events h own e =
    let safe =
      run-IsSafe env identity vs (Arrived events) own events
        (start (new_consensus identity contents vs sm)) (λ pkt a. a)
        (new_consensus-IsSafe identity vs (Arrived events) contents sm) in
    elim (safe.backed.justified h e) [
      | inl q ↦ inl (q, safe.backed.distinct h, safe.backed.approved h)
      | inr f ↦ inr f
    ]
