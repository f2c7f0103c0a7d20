-- ===== src/Packets/Route.antt =====
-- pkg/packets/route.go: route packets, a next hop with an optional MAC address and signature. The
-- source tells a nil slice from an empty one here, so the optional parts are options.
pub mod RoundTrip
use peerdns.Prelude.{ℕ, ◌≡◌, Option, none, some, [], ◌∷◌, ◌++◌, ◌==◌, if◌then◌else◌, Bytes, length}
use peerdns.Wire.{Parser, ◌>>=◌, pure, read_full, read_uint, reader_read_count}

abbrev pub mac_length : ℕ
mac_length = 6

abbrev pub signature_length : ℕ
signature_length = 64

abbrev pub ip_length : ℕ
ip_length = 16

-- `next_hop_ip` is a fixed array of `ip_length` bytes in the source.
pub record RoutePacket : Type 0 where
  pub next_hop_ip : Bytes
  pub next_hop_mac : Option Bytes
  pub signature : Option Bytes

-- An indicator, and the part itself if it has the length wanted.
unfoldable pub put_part : ℕ → Option Bytes → Option Bytes
put_part n none = some (0 ∷ [])
put_part n (some part) = if length part == n then some (1 ∷ part) else none

-- `SerializeRoutePacket`
unfoldable pub serialize_route_packet : RoutePacket → Option Bytes
serialize_route_packet pkt = elim (put_part mac_length pkt.next_hop_mac) [
  | none ↦ none
  | some mac ↦ elim (put_part signature_length pkt.signature) [
    | none ↦ none
    | some sig ↦ some (pkt.next_hop_ip ++ (mac ++ sig))
  ]
]

-- A part that is cut short is an error.
unfoldable pub get_exactly : ℕ → Parser (Option Bytes)
get_exactly n = do
  (part, count) ← reader_read_count n
  if count == n then pure (some part) else λ s. none

unfoldable pub get_part : ℕ → Parser (Option Bytes)
get_part n = do indicator ← read_uint 1; if indicator == 1 then get_exactly n else pure none

unfoldable pub get_route_packet : Parser RoutePacket
get_route_packet = do
  next_hop_ip ← read_full ip_length
  next_hop_mac ← get_part mac_length
  signature ← get_part signature_length
  pure (record { next_hop_ip = next_hop_ip; next_hop_mac = next_hop_mac; signature = signature })

-- `DeserializeRoutePacket`: bytes that are left over are an error.
unfoldable pub deserialize_route_packet : Bytes → Option RoutePacket
deserialize_route_packet bytes = elim (get_route_packet bytes) [
  | none ↦ none
  | some (pkt, rest) ↦ if length rest == 0 then some pkt else none
]

-- `NewRoutePacket`
unfoldable pub new_route_packet : Bytes → RoutePacket
new_route_packet ip = record { next_hop_ip = ip; next_hop_mac = none; signature = none }
