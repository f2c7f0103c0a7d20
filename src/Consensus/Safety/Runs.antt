-- ===== src/Consensus/Safety/Runs.antt =====
-- Histories of a node (pkg/consensus/protocol.go): proposals that it makes, approvals that it gives
-- and packets that arrive, in any order.
use peerdns.Prelude.{
  ℕ, ◌≡◌, ◌≤◌, ◌≢◌, refl, Bool, true, Option, some, List, [], ◌∷◌, ◌==◌, ==_iff, Bytes, length,
}
use peerdns.Prelude.Map.{lookup, Distinct}
use peerdns.Packets.PeerId.{
  PeerId, packet_type_proposal, packet_type_approval, packet_type_finalization,
}
use peerdns.Packets.Consensus.{ConsensusPacket, deserialize}
use peerdns.Consensus.Effects.{Result, ok, err, panic, M}
use peerdns.Consensus.Effects.Keeps.{Keeps, After, kept, chain-Keeps, if_keeps, option_keeps}
use peerdns.Consensus.ValidatorSet.{ValidatorSet, quorum_size}
use peerdns.Consensus.State.{State, approvals_for, is_finalized, new_state}
use peerdns.Consensus.Node.{Env, Node, new_protocol}
use peerdns.Consensus.Protocol.{
  propose_block, approve_proposal, handle_message, drop_message, receive,
}
use peerdns.Consensus.Safety.{Verifies, IsTrusted, IsSafe}
use peerdns.Consensus.Safety.Handlers.{
  propose_block-Keeps, approve_proposal-Keeps, handle_proposal-Keeps, handle_approval-Keeps,
}

-- A call of `ProposeBlock` or `ApproveProposal`, or a message of the consensus topic.
pub data Event : Type 0 where
  proposes : Bytes → Event
  approves : Bytes → PeerId → Event
  arrives : Bytes → Event

-- The message, if it is a packet, is no finalization.
abbrev pub IsVote : Event → Type 0
IsVote (proposes block_data) = Unit
IsVote (approves block_hash id) = Unit
IsVote (arrives bytes) =
    (pkt : ConsensusPacket)
    → deserialize bytes ≡ some pkt
    → pkt.packet_type ≢ packet_type_finalization

abbrev pub AllVotes : List Event → Type 0
AllVotes [] = Unit
AllVotes (e ∷ es) = IsVote e × AllVotes es

module _ (env : Env) where
  unfoldable pub step : Event → M (Node env.db.Contents) (Unit {0})
  step (proposes block_data) = propose_block env block_data
  step (approves block_hash id) = approve_proposal env block_hash id
  step (arrives bytes) = receive env bytes

  -- A panic ends the process.
  unfoldable pub run : List Event → Node env.db.Contents → Node env.db.Contents
  run [] n = n
  run (e ∷ es) n =
      let (r, n') = step e n in
      let rest = run es n' in elim r [ ok a ↦ rest | err x ↦ rest | panic ↦ n' ]

  module _ (vs : ValidatorSet) (quorum : ℕ) (t : IsTrusted vs) where
    abbrev P : Node env.db.Contents → Type 0
    P = IsSafe vs quorum

    handle_message_keeps :
        (pkt : ConsensusPacket) (n : Node env.db.Contents)
        → pkt.packet_type ≢ packet_type_finalization
        → P n
        → After P (handle_message env pkt n)
    unfolding handle_message
    handle_message_keeps pkt n other p =
        if_keeps P (pkt.packet_type == packet_type_proposal)
          (λ _. handle_proposal-Keeps env vs quorum t pkt n p)
          (λ _.
            if_keeps P (pkt.packet_type == packet_type_approval)
              (λ _. handle_approval-Keeps env vs quorum pkt n p)
              (λ _.
                if_keeps P (pkt.packet_type == packet_type_finalization)
                  (λ e. absurd (other ((==_iff pkt.packet_type packet_type_finalization).0 e)))
                  (λ _. kept P p)))

    drop_message-Keeps : (block_hash : Bytes) → Keeps P (drop_message env block_hash)
    unfolding drop_message
    drop_message-Keeps block_hash n p = record {
      holds = record {
        same_validators = p.same_validators;
        same_quorum = p.same_quorum;
        backed = p.backed;
      };
    }

    step_keeps : (e : Event) (n : Node env.db.Contents) → IsVote e → P n → After P (step e n)
    unfolding step receive
    step_keeps (proposes block_data) n v p = propose_block-Keeps env vs quorum block_data n p
    step_keeps (approves block_hash id) n v p =
        approve_proposal-Keeps env vs quorum t block_hash id n p
    step_keeps (arrives bytes) n v p = option_keeps P (deserialize bytes) (kept P p) (λ pkt e.
        chain-Keeps P (handle_message env pkt) (drop_message env pkt.block_hash) _
          (handle_message_keeps pkt _ (v pkt e) (record {
            same_validators = p.same_validators;
            same_quorum = p.same_quorum;
            backed = p.backed;
          }))
          (drop_message-Keeps pkt.block_hash))

    after_step :
        (r : Result (Unit {0})) (es : List Event) (n : Node env.db.Contents)
        → P n
        → P (run es n)
        → P (elim r as (λ _. Node env.db.Contents) [
          | ok a ↦ run es n
          | err x ↦ run es n
          | panic ↦ n
        ])
    after_step (ok a) es n p q = q
    after_step (err x) es n p q = q
    after_step panic es n p q = p

    pub run-IsSafe : (es : List Event) (n : Node env.db.Contents) → AllVotes es → P n → P (run es n)
    unfolding run
    run-IsSafe [] n v p = p
    run-IsSafe (e ∷ es) n v p =
        let p' = (step_keeps e n v.0 p).holds in
        after_step (step e n).0 es (step e n).1 p' (run-IsSafe es (step e n).1 v.1 p')

pub new_protocol-IsSafe :
    {S : Type 0} (vs : ValidatorSet) (contents : S) (network : Option PeerId) (finalizer : Bool)
    → IsSafe vs (quorum_size vs) (new_protocol vs contents network finalizer)
unfolding new_protocol new_state approvals_for is_finalized lookup
new_protocol-IsSafe vs contents network finalizer = record {
  same_validators = refl;
  same_quorum = refl;
  backed = record { distinct = λ h. tt; verified = λ h id sig e. cc; quorate = λ h e. cc };
}

-- The state of a new node after a history.
abbrev pub history :
    (env : Env)
    → ValidatorSet
    → env.db.Contents
    → Option PeerId
    → Bool
    → List Event
    → State env.db.Contents
history env vs contents network finalizer events =
    (run env events (new_protocol vs contents network finalizer)).state

-- A node that starts empty and then proposes, approves and receives messages, of which none is a
-- finalization packet, finalizes a block only with a quorum of approvals: at least `quorum_size`
-- entries, under distinct validators of the set, each with a signature on the block hash that the
-- validator's BLS signer verifies. The validators are keyed by their identifiers, and their signers
-- verify what they sign.
pub finalized_by_quorum :
    (env : Env) (vs : ValidatorSet) (contents : env.db.Contents) (network : Option PeerId)
    (finalizer : Bool) (events : List Event) (h : Bytes)
    → IsTrusted vs
    → AllVotes events
    → is_finalized h (history env vs contents network finalizer events) ≡ true
    → let approvals = approvals_for h (history env vs contents network finalizer events) in
      (quorum_size vs ≤ length approvals)
      × Distinct approvals
      × ((id : PeerId) (sig : Bytes) → lookup id approvals ≡ some sig → Verifies vs id h sig)
finalized_by_quorum env vs contents network finalizer events h t v e =
    let safe =
      run-IsSafe env vs (quorum_size vs) t events (new_protocol vs contents network finalizer) v
        (new_protocol-IsSafe vs contents network finalizer) in
    (safe.backed.quorate h e, safe.backed.distinct h, safe.backed.verified h)
