-- ===== src/Consensus/Tests.antt =====
-- Runs and instances of the theorems on a set of three validators (pkg/consensus).
use peerdns.Prelude.{
  ◌∙◌, ℕ, ◌*◌, ◌≡◌, ◌<◌, ◌≤◌, ◌↔◌, ◌⊎◌, refl, true, false, none, some, List, [], ◌∷◌, arith, Bytes,
  beq, beq_iff, hex, hex_digit, length, ltb, sym, keep,
}
use peerdns.Prelude.Int.{pos}
use peerdns.Prelude.Map.{Map, lookup, insert, Distinct}
use peerdns.Prelude.Map.Overlap.{common}
use peerdns.Signers.{Signer, IsSound, bls_signer_type}
use peerdns.Storage
use peerdns.Storage.Memory.{memory, memory-IsStore, place}
use peerdns.Storage.{bytes_less}
use peerdns.Packets.PeerId.{PeerId}
use peerdns.Packets.Consensus.{ConsensusPacket}
use peerdns.Packets.Consensus.RoundTrip.{IsWireable}
use peerdns.Consensus.Effects.{ok}
use peerdns.Consensus.ValidatorSet.{
  ValidatorSet, Validator, Account, Score, new_validator_set, add_validator, set_leader,
  get_validator, signer, quorum_size, current_leader, peer_id,
}
use peerdns.Consensus.ValidatorSet.Election.{IsStrict}
use peerdns.Consensus.State.{
  State, approvals_for, is_finalized, new_state, add_proposal, add_approval, has_proposal,
}
use peerdns.Consensus.State
use peerdns.Consensus.State.Votes.{add_approval_replaces_block}
use peerdns.Consensus.Node.{
  Env, Node, new_protocol, proposal_packet, approval_packet, finalization_packet,
}
use peerdns.Consensus.Protocol
use peerdns.Consensus.Protocol.{propose_block, handle_proposal, handle_finalization}
use peerdns.Consensus.Protocol.Finalizing.{handle_finalization_unchecked}
use peerdns.Consensus.Protocol.Proposing.{Proposed, propose_block-Proposed}
use peerdns.Consensus.Protocol.Accepting.{handle_proposal-records_iff}
use peerdns.Consensus.Safety.{Verifies, IsTrusted}
use peerdns.Consensus.Safety.Runs.{
  Event, approves, AllVotes, run, step, history, finalized_by_quorum,
}
use peerdns.Consensus.Safety.Quorum.{finalized_blocks_share}

-- A signature is the data behind a zero.
abbrev pub toy_signer : Signer
toy_signer = record { sign = λ d. some (0 ∷ d); verify = λ d sig. beq sig (0 ∷ d) }

pub toy_signer-IsSound : IsSound toy_signer
toy_signer-IsSound d sig e = ground (arith, beq_iff sig (0 ∷ d))

abbrev env : Env
env = record { db = memory; hash_data = λ d. d; broadcasts = λ m. true; finalizes = λ h d. true }

abbrev pub account : ℕ → Account
account id = record { peer_id = id ∷ []; signers = (bls_signer_type, toy_signer) ∷ [] }

abbrev pub validator : ℕ → Validator
validator id = record { account = account id }

abbrev pub three : ValidatorSet
three = record {
  validators = (1 ∷ [], validator 1) ∷ (2 ∷ [], validator 2) ∷ (3 ∷ [], validator 3) ∷ [];
  leader_id = 1 ∷ [];
  quorum_threshold = pos 0;
}

program : Unit {0}
unfolding lookup insert place bytes_less beq keep common hex hex_digit get_validator signer
    quorum_size current_leader new_protocol new_state approvals_for is_finalized has_proposal run
    step Protocol.approve_proposal Protocol.approve_as Protocol.send_approval
    Protocol.broadcast_message Protocol.check_quorum Protocol.finalize_block State.add_approval
    State.record_approval State.persist State.has_reached_quorum State.finalize_block Storage.set
    Storage.get new_validator_set add_validator set_leader
program = tt

-- The set is what the operations build.
three_built :
    set_leader (1 ∷ []) (
      add_validator
        (account 3)
        (add_validator (account 2) (add_validator (account 1) new_validator_set)))
    ≡ three
unfolding program
three_built = refl

get_validator-three :
    (id : PeerId) (w : Validator)
    → get_validator id three ≡ some w
    → (peer_id w ≡ id) × (signer w bls_signer_type ≡ some toy_signer)
unfolding program
get_validator-three id w e =
    ground (arith, beq_iff (1 ∷ []) id, beq_iff (2 ∷ []) id, beq_iff (3 ∷ []) id)

-- All three approve block 7, then block 8.
abbrev votes : List Event
votes =
    approves (7 ∷ []) (1 ∷ [])
    ∷ approves (7 ∷ []) (2 ∷ [])
    ∷ approves (7 ∷ []) (3 ∷ [])
    ∷ approves (8 ∷ []) (3 ∷ [])
    ∷ approves (8 ∷ []) (1 ∷ [])
    ∷ approves (8 ∷ []) (2 ∷ [])
    ∷ []

pub some_injective : {A : Type 0} {a b : A} → some a ≡ some b → a ≡ b
some_injective e = cc

all_votes : AllVotes votes
all_votes = omega arith

three-IsTrusted : IsTrusted three
three-IsTrusted = record {
  keyed = λ id w e. (get_validator-three id w e).0;
  sound = λ id w s e k.
      let same : toy_signer ≡ s = some_injective (sym (get_validator-three id w e).1 ∙ k) in
      rw (← same) toy_signer-IsSound;
}

abbrev after_votes : State (Map Bytes)
after_votes = history env three [] (some (1 ∷ [])) true votes

finalized_7 : is_finalized (7 ∷ []) after_votes ≡ true
unfolding program
finalized_7 = refl

finalized_8 : is_finalized (8 ∷ []) after_votes ≡ true
unfolding program
finalized_8 = refl

-- Two of three are no quorum.
two_votes :
    is_finalized (7 ∷ []) (
      history env three [] none true (approves (7 ∷ []) (1 ∷ []) ∷ approves (7 ∷ []) (2 ∷ []) ∷ []))
    ≡ false
unfolding program
two_votes = refl

finalized_by_quorum_example :
    (quorum_size three ≤ length (approvals_for (7 ∷ []) after_votes))
    × Distinct (approvals_for (7 ∷ []) after_votes)
    × ((id : PeerId) (sig : Bytes)
        → lookup id (approvals_for (7 ∷ []) after_votes) ≡ some sig
        → Verifies three id (7 ∷ []) sig)
finalized_by_quorum_example =
    finalized_by_quorum env three [] (some (1 ∷ [])) true votes (7 ∷ []) three-IsTrusted all_votes
      finalized_7

finalized_blocks_share_example :
    length three.validators
    < 3 * length (common (approvals_for (7 ∷ []) after_votes) (approvals_for (8 ∷ []) after_votes))
finalized_blocks_share_example =
    finalized_blocks_share env three [] (some (1 ∷ [])) true votes (7 ∷ []) (8 ∷ []) three-IsTrusted
      refl all_votes finalized_7 finalized_8

abbrev start : Node (Map Bytes)
start = new_protocol three [] (some (1 ∷ [])) true

start_network : start.network ≡ some (1 ∷ [])
unfolding program
start_network = refl

start_leader : current_leader start.validators ≡ some (validator 1)
unfolding program
start_leader = refl

start-IsTrusted : IsTrusted start.validators
unfolding new_protocol
start-IsTrusted = three-IsTrusted

abbrev proposal : ConsensusPacket
proposal = proposal_packet (7 ∷ []) (7 ∷ []) (1 ∷ []) (0 ∷ 7 ∷ [])

proposal-IsWireable : IsWireable proposal
proposal-IsWireable = omega arith

propose_block-Proposed_example :
    ((propose_block env (7 ∷ []) start).0 ≡ ok tt)
    × Proposed env (validator 1) (7 ∷ []) (0 ∷ 7 ∷ []) (propose_block env (7 ∷ []) start).1
unfolding program
propose_block-Proposed_example =
    propose_block-Proposed env (7 ∷ []) start (validator 1) toy_signer (0 ∷ 7 ∷ []) (1 ∷ [])
      ((7 ∷ [], 7 ∷ []) ∷ []) start-IsTrusted memory-IsStore refl refl refl refl refl refl
      proposal-IsWireable

-- A proposal by a validator that is not the leader.
handle_proposal-records_iff_example :
    (has_proposal
        (7 ∷ [])
        (handle_proposal env (record proposal { proposer_id = 2 ∷ [] }) start).1.state
      ≡ true)
    ↔ ((has_proposal (7 ∷ []) start.state ≡ true)
        ⊎ Verifies start.validators (2 ∷ []) (7 ∷ []) (0 ∷ 7 ∷ []))
handle_proposal-records_iff_example =
    handle_proposal-records_iff env (record proposal { proposer_id = 2 ∷ [] }) start refl

handle_finalization_unchecked_example :
    is_finalized (7 ∷ []) (handle_finalization env (finalization_packet (7 ∷ [])) start).1.state
    ≡ true
handle_finalization_unchecked_example =
    handle_finalization_unchecked env (finalization_packet (7 ∷ [])) start

abbrev approval : ConsensusPacket
approval = approval_packet (7 ∷ []) (2 ∷ []) (0 ∷ 7 ∷ [])

abbrev empty : State (Map Bytes)
empty = new_state []

add_approval_replaces_block_example :
    (Storage.get memory (add_proposal memory proposal empty).1.storage (7 ∷ []) ≡ some (7 ∷ []))
    × (Storage.get memory
          (add_approval memory approval (add_proposal memory proposal empty).1).1.storage
          (7 ∷ [])
        ≡ some (0 ∷ 7 ∷ []))
unfolding program
add_approval_replaces_block_example =
    add_approval_replaces_block memory proposal approval empty ((7 ∷ [], 7 ∷ []) ∷ [])
      ((7 ∷ [], 0 ∷ 7 ∷ []) ∷ []) memory-IsStore refl refl refl refl refl refl

-- Scores as numbers.
abbrev scores : Score
scores = record { Float = ℕ; zero = 0; above = λ a b. ltb b a }

scores-IsStrict : IsStrict scores
scores-IsStrict = record { irreflexive = λ x. ground arith; transitive = λ x y z h k. ground arith }

abbrev score_of : PeerId → ℕ
score_of [] = 0
score_of (x ∷ xs) = x
