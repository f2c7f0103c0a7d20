-- ===== src/Packets/Network/RoundTrip.antt =====
-- What a network packet is after a trip over the wire (pkg/packets/network.go).
use mathlib.Core.List.{append_assoc, append-nil}
use peerdns.Prelude.{
  ℕ, ◌^◌, ◌<◌, ◌≡◌, refl, some, [], ◌∷◌, ◌++◌, arith, ltb, lt→ltb, if◌then◌else◌, Bytes, length,
}
use peerdns.Wire.{
  ◌>>=◌, pure, le_bytes, reader_read, sized, read_uint-le_bytes, read_uint-sized,
  reader_read-append, reader_read-cons,
}
use peerdns.Packets.PeerId.{deserialize_peer_id-serialize_peer_id}
use peerdns.Packets.Network.{
  NetworkPacket, serialize, deserialize, put_signature, get_payload, get_signature, get_packet,
}

-- The type is a byte and each length fits 32 bits.
pub record IsWireable (np : NetworkPacket) : Type 0 where
  pub type_byte : np.packet_type < 256
  pub sender_fits : length np.sender_id < 2 ^ 32
  pub receiver_fits : length np.receiver_id < 2 ^ 32
  pub payload_fits : length np.payload < 2 ^ 32
  pub signature_fits : length np.signature < 2 ^ 32

put_signature-cons : (sig s : Bytes) → (y : ℕ) × (t : Bytes) × (put_signature sig ++ s ≡ y ∷ t)
unfolding put_signature le_bytes
put_signature-cons [] s = (0, _, refl)
put_signature-cons (b ∷ bs) s = (1, _, refl)

-- The signature fields follow the payload, so the reader is never at its end there.
get_payload-sized :
    (payload sig s : Bytes)
    → length payload < 2 ^ 32
    → get_payload (sized payload ++ (put_signature sig ++ s))
      ≡ some (payload, put_signature sig ++ s)
unfolding get_payload
get_payload-sized payload sig s h =
    let (y, t, e) = put_signature-cons sig s in
    rw (e, read_uint-sized payload (y ∷ t) h, ◌>>=◌) (reader_read-append payload y t)

optional_read :
    (xs s : Bytes)
    → (if ltb 0 (length xs) then reader_read (length xs) else pure []) (xs ++ s) ≡ some (xs, s)
optional_read [] s = refl
optional_read (x ∷ xs) s = rw (lt→ltb 0 (length (x ∷ xs)) (omega arith)) (reader_read-cons x xs s)

get_signature-put_signature :
    (sig s : Bytes) → length sig < 2 ^ 32 → get_signature (put_signature sig ++ s) ≡ some (sig, s)
unfolding get_signature put_signature
get_signature-put_signature [] s h = rw (
  append_assoc (le_bytes 1 0) (le_bytes 4 0) s,
  read_uint-le_bytes 1 0 (le_bytes 4 0 ++ s) (omega arith),
  ◌>>=◌,
  read_uint-le_bytes 4 0 s (omega arith),
)
get_signature-put_signature (b ∷ bs) s h =
    rw
      (
        append_assoc (le_bytes 1 1) (sized (b ∷ bs)) s,
        read_uint-le_bytes 1 1 (sized (b ∷ bs) ++ s) (omega arith),
        ◌>>=◌,
        read_uint-sized (b ∷ bs) s h,
      )
      (optional_read (b ∷ bs) s)

pub get_packet-serialize :
    (np : NetworkPacket) (s : Bytes) → IsWireable np → get_packet (serialize np ++ s) ≡ some (np, s)
unfolding get_packet serialize
get_packet-serialize np s w = simp append_assoc (
    rw (
      read_uint-le_bytes 1 np.packet_type _ w.type_byte,
      ◌>>=◌,
      deserialize_peer_id-serialize_peer_id np.sender_id _ w.sender_fits,
      deserialize_peer_id-serialize_peer_id np.receiver_id _ w.receiver_fits,
      get_payload-sized np.payload np.signature s w.payload_fits,
      get_signature-put_signature np.signature s w.signature_fits,
    ))

-- A network packet whose type is a byte and whose lengths fit 32 bits is read back unchanged from
-- what `serialize` writes.
pub deserialize-serialize_network :
    (np : NetworkPacket) → IsWireable np → deserialize (serialize np) ≡ some np
unfolding deserialize
deserialize-serialize_network np w =
    rw (← append-nil (serialize np), get_packet-serialize np [] w, deserialize)
