-- ===== src/Validator/Safety.antt =====
-- The safety invariant of a consensus module (pkg/validator/consensus.go): what waits in the
-- channel arrived and, like what was approved, is signed by validators, and a finalized block has a
-- quorum or a signed finalization packet that arrived.
pub mod Steps
pub mod Calls
pub mod Listening
pub mod Rounds
use peerdns.Prelude.{◌≡◌, ◌≤◌, ◌⊎◌, true, some, List, [], ◌∷◌, Bytes, length}
use peerdns.Prelude.Map.{lookup, Distinct}
use peerdns.Signers.{Signer, SignerType, IsSound, bls_signer_type}
use peerdns.Packets.PeerId.{PeerId, packet_type_finalization}
use peerdns.Packets.Consensus.{ConsensusPacket}
use peerdns.Consensus.ValidatorSet.{
  ValidatorSet, Validator, Account, signer, get_validator, quorum_size,
}
use peerdns.Consensus.State.{State, approvals_for, is_finalized}
use peerdns.Validator.Module.{ConsensusModule}
use peerdns.Validator.Verifying.{data_to_verify, signer_id}

-- A validator of the set has a scheme that verifies the signature.
pub record IsSigned (vs : ValidatorSet) (id data_bytes signature : Bytes) : Type 0 where
  pub validator : Validator
  pub scheme_type : SignerType
  pub scheme : Signer
  pub member : get_validator id vs ≡ some validator
  pub signs : signer validator scheme_type ≡ some scheme
  pub verified : scheme.verify data_bytes signature ≡ true

-- A packet that arrived, with its signer's signature on what it must sign. `A` are the packets that
-- arrived.
pub record IsAuthentic (vs : ValidatorSet) (A : ConsensusPacket → Type 0) (pkt : ConsensusPacket)
    : Type 0 where
  pub data_bytes : Bytes
  pub covers : data_to_verify pkt ≡ some data_bytes
  pub signed : IsSigned vs (signer_id pkt) data_bytes pkt.signature
  pub arrived : A pkt

abbrev pub AllAuthentic : ValidatorSet → (ConsensusPacket → Type 0) → List ConsensusPacket → Type 0
AllAuthentic vs A [] = Unit
AllAuthentic vs A (pkt ∷ pkts) = IsAuthentic vs A pkt × AllAuthentic vs A pkts

-- A finalization packet for a block that arrived and is authentic.
pub record Finalizes (vs : ValidatorSet) (A : ConsensusPacket → Type 0) (block_hash : Bytes)
    : Type 0 where
  pub pkt : ConsensusPacket
  pub finalization : pkt.packet_type ≡ packet_type_finalization
  pub about : pkt.block_hash ≡ block_hash
  pub authentic : IsAuthentic vs A pkt

-- If the node is a validator, the set holds its own account; and its signer verifies what it signs.
pub record IsOwn (identity : Account) (vs : ValidatorSet) : Type 0 where
  pub member : (w : Validator) → get_validator identity.peer_id vs ≡ some w → w.account ≡ identity
  pub sound : (s : Signer) → lookup bls_signer_type identity.signers ≡ some s → IsSound s

-- The state's part of the invariant.
pub record IsBacked {S : Type 0} (vs : ValidatorSet) (A : ConsensusPacket → Type 0) (cs : State S)
    : Type 0 where
  pub distinct : (h : Bytes) → Distinct (approvals_for h cs)
  pub approved :
      (h : Bytes) (id : PeerId) (sig : Bytes)
      → lookup id (approvals_for h cs) ≡ some sig
      → IsSigned vs id h sig
  pub justified :
      (h : Bytes)
      → is_finalized h cs ≡ true
      → (quorum_size vs ≤ length (approvals_for h cs)) ⊎ Finalizes vs A h

pub record IsSafe {S : Type 0} (identity : Account) (vs : ValidatorSet)
    (A : ConsensusPacket → Type 0) (n : ConsensusModule S) : Type 0 where
  pub same_identity : n.identity ≡ identity
  pub same_validators : n.validator_set.validators ≡ vs.validators
  pub same_threshold : n.validator_set.quorum_threshold ≡ vs.quorum_threshold
  pub queued : AllAuthentic vs A n.message_chan
  pub backed : IsBacked vs A n.state
