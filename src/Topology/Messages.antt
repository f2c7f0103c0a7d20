-- ===== src/Topology/Messages.antt =====
-- Messages are read as they were written (pkg/topology/message.go).
use mathlib.Core.List.{append_assoc, append-nil}
use peerdns.Prelude.{
  ◌%◌, ◌<◌, ◌≡◌, refl, sym, some, List, [], ◌∷◌, ◌++◌, arith, Bytes, length, ap, ◌∙◌,
}
use peerdns.Wire.{◌>>=◌, read_byte, buffer_read-append}
use peerdns.Topology.{
  TopologyMessage, put_short, put_shorts, serialize, get_short, get_shorts, get_message,
  deserialize,
}

get_short-put_short :
    (xs s : Bytes) → length xs < 256 → get_short (put_short xs ++ s) ≡ some (xs, s)
unfolding get_short put_short
get_short-put_short xs s h =
    let small : length xs % 256 ≡ length xs = omega (arith, h) in
    rw (small, ◌>>=◌, read_byte (length xs) (xs ++ s) h) (buffer_read-append xs s)

-- Every string is short.
abbrev pub AllShort : List Bytes → Type 0
AllShort [] = Unit
AllShort (x ∷ xs) = (length x < 256) × AllShort xs

get_shorts-put_shorts :
    (xs : List Bytes) (s : Bytes)
    → AllShort xs
    → get_shorts (length xs) (put_shorts xs ++ s) ≡ some (xs, s)
unfolding get_shorts put_shorts
get_shorts-put_shorts [] s a = refl
get_shorts-put_shorts (x ∷ xs) s a =
    rw
      (
        append_assoc (put_short x) (put_shorts xs) s,
        ◌>>=◌,
        get_short-put_short x (put_shorts xs ++ s) a.0,
        get_shorts-put_shorts xs s a.1,
      )
      refl

-- A message whose type is a byte and whose identifiers, addresses and number of addresses are
-- shorter than 256 is read as it was written.
pub deserialize-serialize_topology :
    (m : TopologyMessage)
    → m.message_type < 256
    → length m.sender_id < 256
    → length m.about < 256
    → length m.peer_addresses < 256
    → AllShort m.peer_addresses
    → deserialize (serialize m) ≡ some m
unfolding deserialize get_message serialize
deserialize-serialize_topology m t s a n all =
    let type_small : m.message_type % 256 ≡ m.message_type = omega (arith, t) in
    let count_small : length m.peer_addresses % 256 ≡ length m.peer_addresses = omega (arith, n) in
    let last = get_shorts-put_shorts m.peer_addresses [] all in
    let addresses = put_shorts m.peer_addresses in
    let rest = length m.peer_addresses ∷ addresses in
    rw
      (
        type_small,
        count_small,
        deserialize,
        get_message,
        ◌>>=◌,
        read_byte m.message_type (put_short m.sender_id ++ (put_short m.about ++ rest)) t,
        get_short-put_short m.sender_id (put_short m.about ++ rest) s,
        get_short-put_short m.about rest a,
        read_byte (length m.peer_addresses) addresses n,
        ap (get_shorts (length m.peer_addresses)) (sym (append-nil addresses)) ∙ last,
      )
      refl
