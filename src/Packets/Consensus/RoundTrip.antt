-- ===== src/Packets/Consensus/RoundTrip.antt =====
-- What a consensus packet is after a trip over the wire (pkg/packets/consensus.go).
use mathlib.Core.List.{append_assoc, append-nil}
use peerdns.Prelude.{
  ◌^◌, ◌<◌, ◌≡◌, refl, some, [], ◌∷◌, ◌++◌, arith, ltb, lt→ltb, ◌==◌, if◌then◌else◌, Bytes, length,
  Bool-cases, inl, inr,
}
use peerdns.Wire.{
  ◌>>=◌, pure, le_bytes, buffer_read, sized, read_uint-le_bytes, read_uint-sized,
  buffer_read-append,
}
use peerdns.Signers.{signer_type_uint32, signer_type_from_uint32, signer_type_uint32-lt}
use peerdns.Packets.PeerId.{PacketType, packet_type_proposal, deserialize_peer_id-serialize_peer_id}
use peerdns.Packets.Consensus.{
  ConsensusPacket, serialize, deserialize, put_block_data, put_signature, get_block_hash,
  get_block_data, get_signature, get_packet,
}

-- The type is a byte and each length fits 32 bits.
pub record IsWireable (cp : ConsensusPacket) : Type 0 where
  pub type_byte : cp.packet_type < 256
  pub proposer_fits : length cp.proposer_id < 2 ^ 32
  pub validator_fits : length cp.validator_id < 2 ^ 32
  pub hash_fits : length cp.block_hash < 2 ^ 32
  pub data_fits : length cp.block_data < 2 ^ 32
  pub signature_fits : length cp.signature < 2 ^ 32

-- The packet that arrives: only a proposal carries block data, and a signature scheme without a
-- number of its own is unknown.
abbrev pub received : ConsensusPacket → ConsensusPacket
received cp = record cp {
  signer = signer_type_from_uint32 (signer_type_uint32 cp.signer);
  block_data = if cp.packet_type == packet_type_proposal then cp.block_data else [];
}

get_block_hash-sized :
    (hash s : Bytes) → length hash < 2 ^ 32 → get_block_hash (sized hash ++ s) ≡ some (hash, s)
unfolding get_block_hash
get_block_hash-sized hash s h = rw (read_uint-sized hash s h, ◌>>=◌) (buffer_read-append hash s)

-- A part that is read only if its length is positive.
optional_read :
    (xs s : Bytes)
    → (if ltb 0 (length xs) then buffer_read (length xs) else pure []) (xs ++ s) ≡ some (xs, s)
optional_read [] s = refl
optional_read (x ∷ xs) s =
    rw (lt→ltb 0 (length (x ∷ xs)) (omega arith)) (buffer_read-append (x ∷ xs) s)

get_block_data-put_block_data :
    (t : PacketType) (block s : Bytes)
    → length block < 2 ^ 32
    → get_block_data t (put_block_data t block ++ s)
      ≡ some (if t == packet_type_proposal then block else [], s)
unfolding get_block_data put_block_data
get_block_data-put_block_data t block s h = elim (Bool-cases (t == packet_type_proposal)) [
  | inl e ↦ rw (e, read_uint-sized block s h, ◌>>=◌, optional_read block s) (rw e)
  | inr e ↦ rw (e, read_uint-le_bytes 4 0 s (omega arith), ◌>>=◌) (rw e)
]

get_signature-put_signature :
    (sig s : Bytes) → length sig < 2 ^ 32 → get_signature (put_signature sig ++ s) ≡ some (sig, s)
unfolding get_signature put_signature
get_signature-put_signature [] s h = rw (
  append_assoc (le_bytes 1 0) (le_bytes 4 0) s,
  read_uint-le_bytes 1 0 (le_bytes 4 0 ++ s) (omega arith),
  ◌>>=◌,
  read_uint-le_bytes 4 0 s (omega arith),
)
get_signature-put_signature (b ∷ bs) s h =
    rw
      (
        append_assoc (le_bytes 1 1) (sized (b ∷ bs)) s,
        read_uint-le_bytes 1 1 (sized (b ∷ bs) ++ s) (omega arith),
        ◌>>=◌,
        read_uint-sized (b ∷ bs) s h,
      )
      (optional_read (b ∷ bs) s)

-- Reading a written packet gives the packet as received, and leaves what follows it.
pub get_packet-serialize :
    (cp : ConsensusPacket) (s : Bytes)
    → IsWireable cp
    → get_packet (serialize cp ++ s) ≡ some (received cp, s)
unfolding get_packet serialize
get_packet-serialize cp s w = simp append_assoc (
    rw (
      read_uint-le_bytes 1 cp.packet_type _ w.type_byte,
      ◌>>=◌,
      read_uint-le_bytes 4 (signer_type_uint32 cp.signer) _ (signer_type_uint32-lt cp.signer),
      deserialize_peer_id-serialize_peer_id cp.proposer_id _ w.proposer_fits,
      deserialize_peer_id-serialize_peer_id cp.validator_id _ w.validator_fits,
      get_block_hash-sized cp.block_hash _ w.hash_fits,
      get_block_data-put_block_data cp.packet_type cp.block_data _ w.data_fits,
      get_signature-put_signature cp.signature s w.signature_fits,
    ))

-- A consensus packet whose type is a byte and whose lengths fit 32 bits is read back from what
-- `serialize` writes, but for two things: block data arrives with a proposal only, and a signature
-- scheme that has no number of its own arrives as "unknown".
pub deserialize-serialize_consensus :
    (cp : ConsensusPacket) → IsWireable cp → deserialize (serialize cp) ≡ some (received cp)
unfolding deserialize
deserialize-serialize_consensus cp w =
    rw (← append-nil (serialize cp), get_packet-serialize cp [] w, deserialize)
