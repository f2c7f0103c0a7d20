-- ===== src/Validator/Tests.antt =====
-- Instances of the theorems on a set of three validators (pkg/validator/consensus.go).
use peerdns.Prelude.{
  ◌⊎◌, ◌≡◌, ◌≤◌, sym, ap, refl, arith, true, some, [], ◌∷◌, Bytes, beq, length, List,
}
use peerdns.Prelude.Map.{Map, lookup, Distinct}
use peerdns.Signers.{is_known}
use peerdns.Storage.Memory.{memory}
use peerdns.Packets.PeerId.{PeerId}
use peerdns.Packets.Consensus.{ConsensusPacket, serialize}
use peerdns.Packets.Consensus.RoundTrip.{IsWireable, received, deserialize-serialize_consensus}
use peerdns.Signers.{signer_type_uint32, signer_type_from_uint32}
use peerdns.Consensus.Effects.{ok}
use peerdns.Consensus.ValidatorSet.{Validator, get_validator, signer, quorum_size}
use peerdns.Consensus.State.{approvals_for, is_finalized}
use peerdns.Consensus.Tests.{toy_signer-IsSound, account, three, some_injective}
use peerdns.Validator.Module.{Env, ConsensusModule, approval_packet, new_consensus}
use peerdns.Validator.Verifying.{verify_signature, data_to_verify, signer_id, verify_with}
use peerdns.Validator.Handlers.{listen, start}
use peerdns.Validator.Lifecycle.{new_state_manager}
use peerdns.Validator.Runs.{Event, Arrived, arrives, processes, run}
use peerdns.Validator.Duplicates.{dropped, listen_again}
use peerdns.Validator.Replays.{as_finalization, finalized_by_replay}
use peerdns.Validator.Safety.{IsSigned, Finalizes, IsOwn}
use peerdns.Validator.Safety.Rounds.{history, finalized_by_quorum_or_packet}

abbrev env : Env
env = record { db = memory; hash_data = λ d. d; publishes = λ m. true; peer_string = λ id. id }

abbrev fresh : ConsensusModule (Map Bytes)
fresh = new_consensus (account 2) [] three new_state_manager

-- The first validator approves a block.
abbrev approval : ConsensusPacket
approval = approval_packet (7 ∷ []) (1 ∷ []) (0 ∷ 7 ∷ [])

approval-IsWireable : IsWireable approval
approval-IsWireable = omega arith

approval_verifies : verify_signature approval three ≡ ok true
unfolding verify_signature verify_with data_to_verify signer_id get_validator signer lookup beq
approval_verifies = refl

fresh_idle : fresh.message_chan ≡ []
unfolding new_consensus
fresh_idle = refl

finalized_by_replay_example :
    is_finalized
      (7 ∷ [])
      (run env (arrives (serialize (as_finalization approval)) ∷ processes ∷ []) fresh).state
    ≡ true
unfolding new_consensus is_known lookup beq
finalized_by_replay_example =
    finalized_by_replay env fresh approval approval-IsWireable refl refl approval_verifies refl refl

account_of_three : (w : Validator) → get_validator (2 ∷ []) three ≡ some w → w.account ≡ account 2
unfolding get_validator lookup beq
account_of_three w e = ap (λ v. v.account) (sym (some_injective e))

account-IsOwn : IsOwn (account 2) three
unfolding lookup beq
account-IsOwn = record {
  member = account_of_three;
  sound = λ s e. rw (← some_injective e) toy_signer-IsSound;
}

abbrev replay_events : List Event
replay_events = arrives (serialize (as_finalization approval)) ∷ processes ∷ []

replayed :
    is_finalized (7 ∷ []) (history env (account 2) three [] new_state_manager replay_events) ≡ true
unfolding start new_consensus is_known lookup beq
replayed =
    finalized_by_replay env (start fresh) approval approval-IsWireable refl refl approval_verifies
      refl refl

finalized_by_quorum_or_packet_example :
    let approvals =
      approvals_for (7 ∷ []) (history env (account 2) three [] new_state_manager replay_events) in
    ((quorum_size three ≤ length approvals)
      × Distinct approvals
      × ((id : PeerId) (sig : Bytes)
          → lookup id approvals ≡ some sig
          → IsSigned three id (7 ∷ []) sig))
    ⊎ Finalizes three (Arrived replay_events) (7 ∷ [])
finalized_by_quorum_or_packet_example =
    finalized_by_quorum_or_packet env (account 2) three [] new_state_manager replay_events (7 ∷ [])
      account-IsOwn replayed

received_verifies : verify_signature (received approval) three ≡ ok true
unfolding verify_signature verify_with data_to_verify signer_id get_validator signer lookup beq
    signer_type_uint32 signer_type_from_uint32
received_verifies = refl

-- The same validator's finalization of the block arrives after its approval.
listen_again_example :
    let later = run env (processes ∷ []) (listen env (serialize approval) fresh).1 in
    listen env (serialize (as_finalization approval)) later
    ≡ (dropped (verify_signature (received (as_finalization approval)) later.validator_set), later)
unfolding new_consensus
listen_again_example =
    listen_again env fresh (processes ∷ []) (serialize approval)
      (serialize (as_finalization approval)) (received approval)
      (received (as_finalization approval))
      (deserialize-serialize_consensus approval approval-IsWireable)
      (deserialize-serialize_consensus (as_finalization approval) (omega arith)) received_verifies
      refl refl
