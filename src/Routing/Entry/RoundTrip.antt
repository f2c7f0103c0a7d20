-- ===== src/Routing/Entry/RoundTrip.antt =====
-- What a route entry is after a trip over the wire (pkg/routing/entry.go).
use mathlib.Core.Path.{subst}
use mathlib.Core.List.{append-nil}
use peerdns.Prelude.{
  ℕ, suc, ◌+◌, ◌*◌, ◌/◌, ◌%◌, ◌<◌, ◌^◌, ◌≡◌, ◌⊎◌, ◌∙◌, refl, sym, none, some, [], ◌∷◌, ◌++◌, arith,
  ◌==◌, if◌then◌else◌, Bytes, length, take, drop, take-append, drop-append, length-append,
}
use peerdns.Wire.{◌>>=◌, read_full-append, reader_read, reader_read-cons, replicate_zero}
use peerdns.Routing.Entry.{
  RouteEntry, to16, uint16_to_bytes, from_uint16_bytes, serialize, read_over, get_uint16,
  get_route_entry, deserialize_route_entry,
}

get_uint16-uint16_to_bytes :
    (n : ℕ) (s : Bytes) → n < 2 ^ 16 → get_uint16 (uint16_to_bytes n ++ s) ≡ some (n, s)
unfolding get_uint16 uint16_to_bytes from_uint16_bytes
get_uint16-uint16_to_bytes n s h =
    let e : 256 * ((n / 256) % 256) + n % 256 ≡ n = omega arith in
    rw (read_full-append 2 ((n / 256) % 256 ∷ n % 256 ∷ []) s refl, ◌>>=◌, e) refl

-- A whole part of the length that was asked for.
reader_read_whole :
    (n : ℕ) (xs s : Bytes) → length xs ≡ suc n → reader_read (suc n) (xs ++ s) ≡ some (xs, s)
reader_read_whole n [] s h = absurd (omega arith)
reader_read_whole n (x ∷ xs) s h = rw h at (reader_read-cons x xs s)

drop_whole : (n : ℕ) (old : Bytes) → length old ≡ n → drop n old ≡ []
drop_whole n old h = rw (append-nil old, h) at (drop-append old [])

read_over_parts :
    (old new rest t : Bytes) (b : ℕ)
    → take (length old) (b ∷ t) ≡ new
    → drop (length old) (b ∷ t) ≡ rest
    → length new ≡ length old
    → read_over old (b ∷ t) ≡ some (new, rest)
unfolding read_over
read_over_parts old new rest t b e1 e2 h =
    rw (e1, e2, drop_whole (length new) old (sym h), append-nil new) refl

-- A slice that is read over whole holds what was read.
read_over_whole :
    (old xs s : Bytes)
    → length xs ≡ length old
    → 0 < length old
    → read_over old (xs ++ s) ≡ some (xs, s)
read_over_whole old [] s h p = absurd (omega arith)
read_over_whole old (x ∷ xs) s h p =
    let e1 = subst (λ n. take n (x ∷ (xs ++ s)) ≡ x ∷ xs) h (take-append (x ∷ xs) s) in
    let e2 = subst (λ n. drop n (x ∷ (xs ++ s)) ≡ s) h (drop-append (x ∷ xs) s) in
    read_over_parts old (x ∷ xs) s (xs ++ s) x e1 e2 h

length-to16 : (ip : Bytes) → (length ip ≡ 4) ⊎ (length ip ≡ 16) → length (to16 ip) ≡ 16
unfolding to16 replicate_zero
length-to16 ip h = ground (arith, length-append (replicate_zero 10) (255 ∷ 255 ∷ ip))

-- The addresses have 4 or 16 bytes, the MAC address 6, and the rest fits uint16.
pub record IsWireable (re : RouteEntry) : Type 0 where
  pub src_length : (length re.src_ip ≡ 4) ⊎ (length re.src_ip ≡ 16)
  pub dst_length : (length re.dst_ip ≡ 4) ⊎ (length re.dst_ip ≡ 16)
  pub src_fits : re.src_port < 2 ^ 16
  pub dst_fits : re.dst_port < 2 ^ 16
  pub mac_length : length re.next_hop_mac ≡ 6
  pub signature_fits : length re.signature < 2 ^ 16

-- The entry that arrives: the source address is the destination's.
abbrev pub received : RouteEntry → RouteEntry
received re = record re { src_ip = to16 re.dst_ip; dst_ip = to16 re.dst_ip }

read_rest :
    (sig : Bytes)
    → reader_read (length sig) sig ≡ (if length sig == 0 then none else some (sig, []))
unfolding reader_read
read_rest [] = refl
read_rest (x ∷ xs) = let e = rw (append-nil xs) at (reader_read-cons x xs []) in ground (arith, e)

-- A route entry over the wire loses its source address: both addresses of the entry that arrives
-- are the destination. An entry that has no signature is refused.
pub deserialize-serialize_entry :
    (re : RouteEntry)
    → IsWireable re
    → deserialize_route_entry (serialize re)
      ≡ (if length re.signature == 0 then none else some (received re))
unfolding deserialize_route_entry get_route_entry serialize
deserialize-serialize_entry re w =
    let l16 = length-to16 re.dst_ip w.dst_length in
    let l16' = length-to16 re.src_ip w.src_length in
    rw
      (
        deserialize_route_entry,
        get_route_entry,
        ◌>>=◌,
        reader_read_whole 15 (to16 re.src_ip) _ l16',
        read_over_whole (to16 re.src_ip) (to16 re.dst_ip) _ (l16 ∙ sym l16') (omega (arith, l16')),
        get_uint16-uint16_to_bytes re.src_port _ w.src_fits,
        get_uint16-uint16_to_bytes re.dst_port _ w.dst_fits,
        reader_read_whole 5 re.next_hop_mac _ w.mac_length,
        get_uint16-uint16_to_bytes (length re.signature) _ w.signature_fits,
        read_rest re.signature,
      )
      (ground arith)
