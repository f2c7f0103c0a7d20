-- ===== src/Packets/Consensus.antt =====
-- pkg/packets/consensus.go: the packets of the consensus protocol.
pub mod RoundTrip
use peerdns.Prelude.{
  ℕ, ◌+◌, ◌≡◌, Option, none, some, [], ◌∷◌, ◌++◌, ◌&&◌, ltb, ◌==◌, if◌then◌else◌, Bytes,
}
use peerdns.Wire.{Parser, ◌>>=◌, pure, le_bytes, read_uint, buffer_read, sized}
use peerdns.Signers.{SignerType, signer_type_uint32, signer_type_from_uint32}
use peerdns.Packets.PeerId.{
  PeerId, PacketType, packet_type_proposal, serialize_peer_id, deserialize_peer_id,
}

-- A nil slice and an empty one are both [].
pub record ConsensusPacket : Type 0 where
  pub packet_type : PacketType
  pub signer : SignerType
  pub proposer_id : PeerId
  pub validator_id : PeerId
  pub block_hash : Bytes
  pub block_data : Bytes
  pub signature : Bytes

unfoldable pub put_block_data : PacketType → Bytes → Bytes
put_block_data t block = if t == packet_type_proposal then sized block else le_bytes 4 0

-- The presence flag, the length and the signature.
unfoldable pub put_signature : Bytes → Bytes
put_signature [] = le_bytes 1 0 ++ le_bytes 4 0
put_signature (b ∷ bs) = le_bytes 1 1 ++ sized (b ∷ bs)

-- `Serialize`; writes to a bytes.Buffer do not fail.
unfoldable pub serialize : ConsensusPacket → Bytes
serialize cp =
    le_bytes 1 packet_type
    ++ (le_bytes 4 (signer_type_uint32 signer)
        ++ (serialize_peer_id proposer_id
            ++ (serialize_peer_id validator_id
                ++ (sized block_hash
                    ++ (put_block_data packet_type block_data ++ put_signature signature)))))
  where
    open cp use {packet_type, signer, proposer_id, validator_id, block_hash, block_data, signature}

unfoldable pub get_block_hash : Parser Bytes
get_block_hash = do n ← read_uint 4; buffer_read n

-- Block data of other packets is read and discarded.
unfoldable pub get_block_data : PacketType → Parser Bytes
get_block_data t = do
  n ← read_uint 4
  read ← if ltb 0 n then buffer_read n else pure []
  pure (if t == packet_type_proposal then read else [])

unfoldable pub get_signature : Parser Bytes
get_signature = do
  presence ← read_uint 1
  n ← read_uint 4
  if (presence == 1) && ltb 0 n then buffer_read n else pure []

unfoldable pub get_packet : Parser ConsensusPacket
get_packet = do
  packet_type ← read_uint 1
  signer ← read_uint 4
  proposer_id ← deserialize_peer_id
  validator_id ← deserialize_peer_id
  block_hash ← get_block_hash
  block_data ← get_block_data packet_type
  signature ← get_signature
  pure (record {
    packet_type = packet_type;
    signer = signer_type_from_uint32 signer;
    proposer_id = proposer_id;
    validator_id = validator_id;
    block_hash = block_hash;
    block_data = block_data;
    signature = signature;
  })

-- `DeserializeConsensusPacket`: what is left over is ignored.
unfoldable pub deserialize : Bytes → Option ConsensusPacket
deserialize bytes = elim (get_packet bytes) [ none ↦ none | some (cp, rest) ↦ some cp ]
