-- ===== src/State/Records/RoundTrip.antt =====
-- Records through the codec (pkg/state).
use mathlib.Core.List.{append_assoc, append-nil}
use peerdns.Prelude.{◌^◌, ◌<◌, ◌≡◌, Option, none, some, [], ◌++◌, arith, Bytes, length}
use peerdns.Prelude.Int.{ℤ, IsInt64}
use peerdns.Wire.{sized, read_uint-le_bytes}
use peerdns.State.Decoder.{
  decoded, ◌>>=◌, S2, IsLossless, get_bytes-sized, put_int64, get_int64-put_int64,
  decode_with-encode,
}
use peerdns.State.Records.{
  Proposal, Peer, LatencyRecord, Finalization, proposal_bytes, get_proposal, put_left_at,
  peer_bytes, get_time, get_left_at, get_peer, latency_record_bytes, get_latency_record,
  finalization_bytes, get_finalization, encode_proposal, decode_proposal, encode_peer, decode_peer,
  encode_latency_record, decode_latency_record, encode_finalization, decode_finalization,
}

-- Lengths that fit an int32.
abbrev pub Fits : Bytes → Type 0
Fits b = length b < 2 ^ 31

abbrev pub ProposalFits : Proposal → Type 0
ProposalFits p = Fits p.id × Fits p.block_hash × Fits p.content × IsInt64 p.timestamp

abbrev pub TimeFits : Option ℤ → Type 0
TimeFits none = Unit
TimeFits (some t) = IsInt64 t

abbrev pub PeerFits : Peer → Type 0
PeerFits p = Fits p.id × Fits p.address × IsInt64 p.joined_at × TimeFits p.left_at

abbrev pub LatencyRecordFits : LatencyRecord → Type 0
LatencyRecordFits r = Fits r.peer_id × IsInt64 r.latency_ms × IsInt64 r.timestamp

abbrev pub FinalizationFits : Finalization → Type 0
FinalizationFits f = Fits f.block_hash × IsInt64 f.timestamp

get_proposal-proposal_bytes :
    (p : Proposal) → ProposalFits p → get_proposal (proposal_bytes p ++ []) ≡ decoded (p, [])
unfolding get_proposal proposal_bytes sized
get_proposal-proposal_bytes p (a, b, c, t) = simp append_assoc (
    rw (
      get_bytes-sized p.id 3 _ _ a,
      ◌>>=◌,
      get_bytes-sized p.block_hash 3 _ _ b,
      get_bytes-sized p.content 7 _ _ c,
      get_int64-put_int64 p.timestamp _ t,
    ))

get_left_at-put_left_at :
    (o : Option ℤ) (s : Bytes) → TimeFits o → get_left_at (put_left_at o ++ s) ≡ decoded (o, s)
unfolding get_left_at put_left_at get_time
get_left_at-put_left_at none s h = rw (read_uint-le_bytes 1 0 s (omega arith), ◌>>=◌)
get_left_at-put_left_at (some t) s h =
    simp append_assoc (
      rw
        (read_uint-le_bytes 1 1 (put_int64 t ++ s) (omega arith), ◌>>=◌, get_int64-put_int64 t s h))

get_peer-peer_bytes : (p : Peer) → PeerFits p → get_peer (peer_bytes p ++ []) ≡ decoded (p, [])
unfolding get_peer peer_bytes sized
get_peer-peer_bytes p (a, b, j, l) = simp append_assoc (
    rw (
      get_bytes-sized p.id 3 _ _ a,
      ◌>>=◌,
      get_bytes-sized p.address 7 _ _ b,
      get_int64-put_int64 p.joined_at _ j,
      get_left_at-put_left_at p.left_at _ l,
    ))

get_latency_record-latency_record_bytes :
    (r : LatencyRecord)
    → LatencyRecordFits r
    → get_latency_record (latency_record_bytes r ++ []) ≡ decoded (r, [])
unfolding get_latency_record latency_record_bytes sized
get_latency_record-latency_record_bytes r (a, l, t) = simp append_assoc (
    rw (
      get_bytes-sized r.peer_id 7 _ _ a,
      ◌>>=◌,
      get_int64-put_int64 r.latency_ms _ l,
      get_int64-put_int64 r.timestamp _ t,
    ))

get_finalization-finalization_bytes :
    (f : Finalization)
    → FinalizationFits f
    → get_finalization (finalization_bytes f ++ []) ≡ decoded (f, [])
unfolding get_finalization finalization_bytes sized
get_finalization-finalization_bytes f (a, t) =
    simp append_assoc
      (rw (get_bytes-sized f.block_hash 7 _ _ a, ◌>>=◌, get_int64-put_int64 f.timestamp _ t))

module _ (s2 : S2) (lossless : IsLossless s2) where
  pub decode_proposal-encode_proposal :
      (p : Proposal) → ProposalFits p → decode_proposal s2 (encode_proposal s2 p) ≡ decoded p
  unfolding decode_proposal encode_proposal
  decode_proposal-encode_proposal p h =
      decode_with-encode s2 get_proposal (proposal_bytes p) [] p lossless
        (rw (append-nil (proposal_bytes p)) at (get_proposal-proposal_bytes p h))

  pub decode_peer-encode_peer :
      (p : Peer) → PeerFits p → decode_peer s2 (encode_peer s2 p) ≡ decoded p
  unfolding decode_peer encode_peer
  decode_peer-encode_peer p h =
      decode_with-encode s2 get_peer (peer_bytes p) [] p lossless
        (rw (append-nil (peer_bytes p)) at (get_peer-peer_bytes p h))

  pub decode_latency_record-encode_latency_record :
      (r : LatencyRecord)
      → LatencyRecordFits r
      → decode_latency_record s2 (encode_latency_record s2 r) ≡ decoded r
  unfolding decode_latency_record encode_latency_record
  decode_latency_record-encode_latency_record r h =
      decode_with-encode s2 get_latency_record (latency_record_bytes r) [] r lossless
        (rw (append-nil (latency_record_bytes r)) at (get_latency_record-latency_record_bytes r h))

  pub decode_finalization-encode_finalization :
      (f : Finalization)
      → FinalizationFits f
      → decode_finalization s2 (encode_finalization s2 f) ≡ decoded f
  unfolding decode_finalization encode_finalization
  decode_finalization-encode_finalization f h =
      decode_with-encode s2 get_finalization (finalization_bytes f) [] f lossless
        (rw (append-nil (finalization_bytes f)) at (get_finalization-finalization_bytes f h))
