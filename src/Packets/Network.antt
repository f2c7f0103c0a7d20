-- ===== src/Packets/Network.antt =====
-- pkg/packets/network.go: ping, request and response packets. They are read from a bytes.Reader.
pub mod RoundTrip
use peerdns.Prelude.{
  ℕ, ◌≡◌, Option, none, some, [], ◌∷◌, ◌++◌, ◌&&◌, ltb, ◌==◌, if◌then◌else◌, Bytes,
}
use peerdns.Wire.{Parser, ◌>>=◌, pure, le_bytes, read_uint, reader_read, sized}
use peerdns.Packets.PeerId.{PeerId, PacketType, serialize_peer_id, deserialize_peer_id}

pub record NetworkPacket : Type 0 where
  pub packet_type : PacketType
  pub sender_id : PeerId
  pub receiver_id : PeerId
  pub payload : Bytes
  pub signature : Bytes

unfoldable pub put_signature : Bytes → Bytes
put_signature [] = le_bytes 1 0 ++ le_bytes 4 0
put_signature (b ∷ bs) = le_bytes 1 1 ++ sized (b ∷ bs)

unfoldable pub serialize : NetworkPacket → Bytes
serialize np =
    le_bytes 1 np.packet_type
    ++ (serialize_peer_id np.sender_id
        ++ (serialize_peer_id np.receiver_id ++ (sized np.payload ++ put_signature np.signature)))

unfoldable pub get_payload : Parser Bytes
get_payload = do n ← read_uint 4; reader_read n

unfoldable pub get_signature : Parser Bytes
get_signature = do
  presence ← read_uint 1
  n ← read_uint 4
  if (presence == 1) && ltb 0 n then reader_read n else pure []

unfoldable pub get_packet : Parser NetworkPacket
get_packet = do
  packet_type ← read_uint 1
  sender_id ← deserialize_peer_id
  receiver_id ← deserialize_peer_id
  payload ← get_payload
  signature ← get_signature
  pure (record {
    packet_type = packet_type;
    sender_id = sender_id;
    receiver_id = receiver_id;
    payload = payload;
    signature = signature;
  })

-- `DeserializeNetworkPacket`: what is left over is ignored.
unfoldable pub deserialize : Bytes → Option NetworkPacket
deserialize bytes = elim (get_packet bytes) [ none ↦ none | some (np, rest) ↦ some np ]
