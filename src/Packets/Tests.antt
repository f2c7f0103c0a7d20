-- ===== src/Packets/Tests.antt =====
-- Packets at work, and instances of the theorems (pkg/packets).
use peerdns.Prelude.{◌≡◌, none, some, [], ◌∷◌, arith, Bytes, codes}
use peerdns.Signers.{ed25519_signer_type}
use peerdns.Packets.Consensus
use peerdns.Packets.Consensus.{ConsensusPacket}
use peerdns.Packets.Consensus.RoundTrip.{received, deserialize-serialize_consensus}
use peerdns.Packets.Network.{NetworkPacket}
use peerdns.Packets.Route.{RoutePacket}

abbrev proposal : ConsensusPacket
proposal = record {
  packet_type = 1;
  signer = ed25519_signer_type;
  proposer_id = 10 ∷ 11 ∷ [];
  validator_id = [];
  block_hash = 1 ∷ 2 ∷ 3 ∷ [];
  block_data = 200 ∷ 201 ∷ [];
  signature = 9 ∷ [];
}

deserialize-serialize_consensus_example :
    Consensus.deserialize (Consensus.serialize proposal) ≡ some (received proposal)
deserialize-serialize_consensus_example = deserialize-serialize_consensus proposal (omega arith)

abbrev ping : NetworkPacket
ping = record {
  packet_type = 5;
  sender_id = 10 ∷ [];
  receiver_id = [];
  payload = [];
  signature = [];
}

abbrev next_hop : Bytes
next_hop = 10 ∷ 0 ∷ 0 ∷ 1 ∷ 0 ∷ 0 ∷ 0 ∷ 0 ∷ 0 ∷ 0 ∷ 0 ∷ 0 ∷ 0 ∷ 0 ∷ 0 ∷ 0 ∷ []

abbrev mac : Bytes
mac = 1 ∷ 2 ∷ 3 ∷ 4 ∷ 5 ∷ 6 ∷ []

abbrev hop : RoutePacket
hop = record { next_hop_ip = next_hop; next_hop_mac = some mac; signature = none }

abbrev schnorr : Bytes
schnorr = codes "schnorr"
