-- ===== src/Packets/Route/RoundTrip.antt =====
-- What a route packet is after a trip over the wire (pkg/packets/route.go).
use mathlib.Core.List.{append_assoc, append-nil}
use peerdns.Prelude.{ℕ, ◌<◌, ◌≡◌, Option, none, some, [], ◌∷◌, ◌++◌, arith, ==_iff, Bytes, length}
use peerdns.Wire.{◌>>=◌, read_byte, read_full-append, reader_read_count-cons}
use peerdns.Packets.Route.{
  RoutePacket, put_part, get_part, get_exactly, serialize_route_packet, get_route_packet,
  deserialize_route_packet, mac_length, signature_length, ip_length,
}

get_exactly-append :
    (n : ℕ) (part s : Bytes)
    → length part ≡ n
    → 0 < n
    → get_exactly n (part ++ s) ≡ some (some part, s)
unfolding get_exactly
get_exactly-append n [] s h p = absurd (omega arith)
get_exactly-append n (b ∷ bs) s h p =
    rw (← h, reader_read_count-cons b bs s, ◌>>=◌) (rw ((==_iff (length (b ∷ bs)) n).1 h) (cc))

put_part-absent : (n : ℕ) {out : Bytes} → put_part n none ≡ some out → out ≡ 0 ∷ []
unfolding put_part
put_part-absent n h = ground arith

put_part-present :
    (n : ℕ) (part : Bytes) {out : Bytes}
    → put_part n (some part) ≡ some out
    → (length part ≡ n) × (out ≡ 1 ∷ part)
unfolding put_part
put_part-present n part h = ground arith

-- A part that was written is read back.
get_part-put_part :
    (n : ℕ) (part : Option Bytes) (out s : Bytes)
    → 0 < n
    → put_part n part ≡ some out
    → get_part n (out ++ s) ≡ some (part, s)
unfolding get_part
get_part-put_part n none out s p h = rw (put_part-absent n h, read_byte 0 s (omega arith), ◌>>=◌)
get_part-put_part n (some part) out s p h =
    let (fits, e) = put_part-present n part h in
    rw (e, read_byte 1 (part ++ s) (omega arith), ◌>>=◌) (get_exactly-append n part s fits p)

serialize-parts :
    (pkt : RoutePacket) {out : Bytes}
    → serialize_route_packet pkt ≡ some out
    → (mac sig : Bytes) × (put_part mac_length pkt.next_hop_mac ≡ some mac)
      × (put_part signature_length pkt.signature ≡ some sig)
      × (out ≡ pkt.next_hop_ip ++ (mac ++ sig))
unfolding serialize_route_packet
serialize-parts pkt h = ground arith

pub get_route_packet-serialize :
    (pkt : RoutePacket) (out s : Bytes)
    → length pkt.next_hop_ip ≡ ip_length
    → serialize_route_packet pkt ≡ some out
    → get_route_packet (out ++ s) ≡ some (pkt, s)
unfolding get_route_packet
get_route_packet-serialize pkt out s ip h =
    let (mac, sig, hm, hs, e) = serialize-parts pkt h in
    rw e (
      simp append_assoc (
        rw (
          read_full-append ip_length pkt.next_hop_ip _ ip,
          ◌>>=◌,
          get_part-put_part mac_length pkt.next_hop_mac mac (sig ++ s) (omega arith) hm,
          get_part-put_part signature_length pkt.signature sig s (omega arith) hs,
        )))

-- A route packet with an address of the fixed length that `serialize_route_packet` accepts is read
-- back from what was written, and with any further byte behind it the bytes are refused.
pub deserialize-serialize_route :
    (pkt : RoutePacket) (out : Bytes) (x : ℕ) (s : Bytes)
    → length pkt.next_hop_ip ≡ ip_length
    → serialize_route_packet pkt ≡ some out
    → (deserialize_route_packet out ≡ some pkt) × (deserialize_route_packet (out ++ x ∷ s) ≡ none)
unfolding deserialize_route_packet
deserialize-serialize_route pkt out x s ip h = (
  rw (← append-nil out, get_route_packet-serialize pkt out [] ip h, deserialize_route_packet),
  rw (get_route_packet-serialize pkt out (x ∷ s) ip h, deserialize_route_packet) (ground arith),
)
