-- ===== src/State/Records.antt =====
-- pkg/state/proposal.go, peer.go, latency_record.go and finalization.go: the records and how they
-- are written and read.
pub mod RoundTrip
use peerdns.Prelude.{ℕ, Option, none, some, ◌++◌, ◌==◌, if◌then◌else◌, Bytes}
use peerdns.Prelude.Int.{ℤ}
use peerdns.Wire.{le_bytes, read_uint, sized}
use peerdns.State.Decoder.{
  Decoded, Decoder, ◌>>=◌, pure, parse, S2, get_bytes, put_int64, get_int64, decode_with,
}

pub record Proposal : Type 0 where
  pub id : Bytes
  pub block_hash : Bytes
  pub content : Bytes
  pub timestamp : ℤ

-- `left_at` is `none` for an active peer.
pub record Peer : Type 0 where
  pub id : Bytes
  pub address : Bytes
  pub joined_at : ℤ
  pub left_at : Option ℤ

pub record LatencyRecord : Type 0 where
  pub peer_id : Bytes
  pub latency_ms : ℤ
  pub timestamp : ℤ

pub record Finalization : Type 0 where
  pub block_hash : Bytes
  pub timestamp : ℤ

unfoldable pub proposal_bytes : Proposal → Bytes
proposal_bytes p = sized p.id ++ (sized p.block_hash ++ (sized p.content ++ put_int64 p.timestamp))

unfoldable pub get_proposal : Decoder Proposal
get_proposal = do
  id ← get_bytes
  block_hash ← get_bytes
  content ← get_bytes
  timestamp ← get_int64
  pure (record { id = id; block_hash = block_hash; content = content; timestamp = timestamp })

-- The flag and the value.
unfoldable pub put_left_at : Option ℤ → Bytes
put_left_at none = le_bytes 1 0
put_left_at (some t) = le_bytes 1 1 ++ put_int64 t

unfoldable pub peer_bytes : Peer → Bytes
peer_bytes p = sized p.id ++ (sized p.address ++ (put_int64 p.joined_at ++ put_left_at p.left_at))

unfoldable pub get_time : Decoder (Option ℤ)
get_time = do t ← get_int64; pure (some t)

unfoldable pub get_left_at : Decoder (Option ℤ)
get_left_at = do flag ← parse (read_uint 1); if flag == 1 then get_time else pure none

unfoldable pub get_peer : Decoder Peer
get_peer = do
  id ← get_bytes
  address ← get_bytes
  joined_at ← get_int64
  left_at ← get_left_at
  pure (record { id = id; address = address; joined_at = joined_at; left_at = left_at })

unfoldable pub latency_record_bytes : LatencyRecord → Bytes
latency_record_bytes r = sized r.peer_id ++ (put_int64 r.latency_ms ++ put_int64 r.timestamp)

unfoldable pub get_latency_record : Decoder LatencyRecord
get_latency_record = do
  peer_id ← get_bytes
  latency_ms ← get_int64
  timestamp ← get_int64
  pure (record { peer_id = peer_id; latency_ms = latency_ms; timestamp = timestamp })

unfoldable pub finalization_bytes : Finalization → Bytes
finalization_bytes f = sized f.block_hash ++ put_int64 f.timestamp

unfoldable pub get_finalization : Decoder Finalization
get_finalization = do
  block_hash ← get_bytes
  timestamp ← get_int64
  pure (record { block_hash = block_hash; timestamp = timestamp })

-- The methods `Encode`, and `DecodeProposal` and its like.
module _ (s2 : S2) where
  unfoldable pub encode_proposal : Proposal → Bytes
  encode_proposal p = s2.encode (proposal_bytes p)

  unfoldable pub decode_proposal : Bytes → Decoded Proposal
  decode_proposal = decode_with s2 get_proposal

  unfoldable pub encode_peer : Peer → Bytes
  encode_peer p = s2.encode (peer_bytes p)

  unfoldable pub decode_peer : Bytes → Decoded Peer
  decode_peer = decode_with s2 get_peer

  unfoldable pub encode_latency_record : LatencyRecord → Bytes
  encode_latency_record r = s2.encode (latency_record_bytes r)

  unfoldable pub decode_latency_record : Bytes → Decoded LatencyRecord
  decode_latency_record = decode_with s2 get_latency_record

  unfoldable pub encode_finalization : Finalization → Bytes
  encode_finalization f = s2.encode (finalization_bytes f)

  unfoldable pub decode_finalization : Bytes → Decoded Finalization
  decode_finalization = decode_with s2 get_finalization
