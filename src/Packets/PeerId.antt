-- ===== src/Packets/PeerId.antt =====
-- pkg/packets/types.go and helpers.go: packet types, and a peer's identifier on the wire. A libp2p
-- peer.ID is a string of the language, so a byte string here.
use peerdns.Prelude.{ℕ, ◌^◌, ◌<◌, ◌≡◌, refl, some, ◌++◌, Bytes, length}
use peerdns.Wire.{Parser, ◌>>=◌, read_full, read_uint, sized, read_uint-sized, read_full-append}

abbrev pub PeerId : Type 0
PeerId = Bytes

-- A uint8 in the source.
abbrev pub PacketType : Type 0
PacketType = ℕ

abbrev pub packet_type_proposal : PacketType
packet_type_proposal = 1

abbrev pub packet_type_approval : PacketType
packet_type_approval = 2

abbrev pub packet_type_finalization : PacketType
packet_type_finalization = 3

unfoldable pub serialize_peer_id : PeerId → Bytes
serialize_peer_id id = sized id

unfoldable pub deserialize_peer_id : Parser PeerId
deserialize_peer_id = do n ← read_uint 4; read_full n

-- An identifier whose length fits 32 bits is read back, and what follows it is left.
pub deserialize_peer_id-serialize_peer_id :
    (id : PeerId) (s : Bytes)
    → length id < 2 ^ 32
    → deserialize_peer_id (serialize_peer_id id ++ s) ≡ some (id, s)
unfolding deserialize_peer_id serialize_peer_id
deserialize_peer_id-serialize_peer_id id s h =
    rw (read_uint-sized id s h, ◌>>=◌) (read_full-append (length id) id s refl)
