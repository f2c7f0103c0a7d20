-- ===== src/Routing/Entry.antt =====
-- pkg/routing/entry.go and signature.go: route entries, on the wire and as they are signed.
pub mod RoundTrip
use peerdns.Prelude.{
  ℕ, ◌+◌, ◌*◌, ◌/◌, ◌%◌, Option, none, some, [], ◌∷◌, ◌++◌, ◌==◌, if◌then◌else◌, Bytes, length,
  take, drop,
}
use peerdns.Wire.{Parser, ◌>>=◌, pure, read_full, replicate_zero, reader_read}

-- Addresses are slices of 4 or 16 bytes, ports are uint16.
pub record RouteEntry : Type 0 where
  pub src_ip : Bytes
  pub dst_ip : Bytes
  pub src_port : ℕ
  pub dst_port : ℕ
  pub next_hop_mac : Bytes
  pub signature : Bytes

-- `IP.To16`; nil for a slice of another length.
unfoldable pub to16 : Bytes → Bytes
to16 ip =
    if length ip == 4
    then replicate_zero 10 ++ (255 ∷ 255 ∷ ip)
    else if length ip == 16
    then ip
    else []

-- A uint16 with its high byte first.
unfoldable pub uint16_to_bytes : ℕ → Bytes
uint16_to_bytes n = (n / 256) % 256 ∷ n % 256 ∷ []

unfoldable pub from_uint16_bytes : Bytes → ℕ
from_uint16_bytes [] = 0
from_uint16_bytes (a ∷ []) = a
from_uint16_bytes (a ∷ b ∷ bs) = 256 * a + b

-- `Serialize`
unfoldable pub serialize : RouteEntry → Bytes
serialize re =
    to16 re.src_ip
    ++ (to16 re.dst_ip
        ++ (uint16_to_bytes re.src_port
            ++ (uint16_to_bytes re.dst_port
                ++ (re.next_hop_mac ++ (uint16_to_bytes (length re.signature) ++ re.signature)))))

-- `buf.Read` into a slice that holds something already.
unfoldable pub read_over : Bytes → Parser Bytes
read_over old [] = none
read_over old (b ∷ s) =
    let new = take (length old) (b ∷ s) in
    some (new ++ drop (length new) old, drop (length old) (b ∷ s))

unfoldable pub get_uint16 : Parser ℕ
get_uint16 = do b ← read_full 2; pure (from_uint16_bytes b)

-- `DeserializeRouteEntry`. Both addresses are the one slice `ipBytes`, which the second read fills
-- again.
unfoldable pub get_route_entry : Parser RouteEntry
get_route_entry = do
  first ← reader_read 16
  ip_bytes ← read_over first
  src_port ← get_uint16
  dst_port ← get_uint16
  next_hop_mac ← reader_read 6
  sig_len ← get_uint16
  signature ← reader_read sig_len
  pure (record {
    src_ip = ip_bytes;
    dst_ip = ip_bytes;
    src_port = src_port;
    dst_port = dst_port;
    next_hop_mac = next_hop_mac;
    signature = signature;
  })

-- What is left over is ignored.
unfoldable pub deserialize_route_entry : Bytes → Option RouteEntry
deserialize_route_entry data_bytes = elim (get_route_entry data_bytes) [
  | none ↦ none
  | some (re, rest) ↦ some re
]

-- `getSignableData`
unfoldable pub get_signable_data : RouteEntry → Bytes
get_signable_data re =
    to16 re.src_ip
    ++ (to16 re.dst_ip
        ++ (uint16_to_bytes re.src_port ++ (uint16_to_bytes re.dst_port ++ re.next_hop_mac)))
