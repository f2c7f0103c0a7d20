-- ===== src/Validator/Verifying.antt =====
-- pkg/validator/consensus.go: verifySignature.
use peerdns.Prelude.{Bool, Option, none, some, ◌++◌, ◌||◌, ◌==◌, if◌then◌else◌, Bytes}
use peerdns.Signers.{Signer}
use peerdns.Packets.PeerId.{
  PeerId, packet_type_proposal, packet_type_approval, packet_type_finalization,
}
use peerdns.Packets.Consensus.{ConsensusPacket}
use peerdns.Consensus.Effects.{Result, ok, err, panic, invalid_packet_type, approver_not_found}
use peerdns.Consensus.ValidatorSet
use peerdns.Consensus.ValidatorSet.{ValidatorSet, Validator, signer}

-- What a packet of each type signs; there is none for another type.
unfoldable pub data_to_verify : ConsensusPacket → Option Bytes
data_to_verify pkt =
    if pkt.packet_type == packet_type_proposal
    then some (pkt.block_hash ++ pkt.block_data)
    else if (pkt.packet_type == packet_type_approval)
        || (pkt.packet_type == packet_type_finalization)
    then some pkt.block_hash
    else none

-- Who must have signed it.
unfoldable pub signer_id : ConsensusPacket → PeerId
signer_id pkt =
    if pkt.packet_type == packet_type_proposal then pkt.proposer_id else pkt.validator_id

-- The verdict of the packet's scheme. A scheme that the validator lacks is a method call on nil.
unfoldable pub verify_with : Bytes → Bytes → Option Signer → Result Bool
verify_with data_bytes signature none = panic
verify_with data_bytes signature (some s) = ok (s.verify data_bytes signature)

-- `verifySignature`; a scheme's own error counts as a signature that does not verify.
unfoldable pub verify_signature : ConsensusPacket → ValidatorSet → Result Bool
verify_signature pkt vs = elim (data_to_verify pkt) [
  | none ↦ err invalid_packet_type
  | some data_bytes ↦ elim (ValidatorSet.get_validator (signer_id pkt) vs) [
    | none ↦ err approver_not_found
    | some v ↦ verify_with data_bytes pkt.signature (signer v pkt.signer)
  ]
]
