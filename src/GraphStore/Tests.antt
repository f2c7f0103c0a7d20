-- ===== src/GraphStore/Tests.antt =====
-- A graph between two hashes in a database in memory, and instances of the theorems (pkg/graphmdbx).
use peerdns.Prelude.{
  ◌≡◌, ◌≢◌, ◌⊎◌, refl, not, ◌&&◌, some, [], ◌∷◌, ◌++◌, arith, Bytes, beq, beq_iff, codes, hex,
  hex_digit, length, ap, ℕ,
}
use peerdns.Prelude.Map.{Map, lookup, delete, keys}
use peerdns.Wire.{replicate_zero}
use peerdns.Types.Hash.{hash_size}
use peerdns.Storage.{set, get, remove, seek, collect, list_keys_with_prefix, has_prefix, bytes_less}
use peerdns.Storage.Keys.{Ascending, AllAfter}
use peerdns.Storage.Memory.{memory, memory-IsStore, place}
use peerdns.GraphStore.{
  Store, Codec, hashes, colon, split, third_is, print, add_edge, edge, vertex, found, remove_vertex,
  vertex_key, edge_key, outgoing_prefix, delete_where, remove_incoming,
}
use peerdns.GraphStore.Lookups.{edge-add_edge}
use peerdns.GraphStore.Removal.{member, IsDeleting, is_incoming, member-remove_vertex}

-- Values as they are.
abbrev plain : Codec Bytes
plain = record { encode = λ v. some v; decode = λ bytes. some bytes }

abbrev store : Store Bytes Bytes
store = record {
  db = memory;
  ids = hashes;
  vertex_prefix = codes "vertex";
  edge_prefix = codes "edge";
  vertices = plain;
  edges = plain;
}

abbrev one : Bytes
one = 1 ∷ replicate_zero 31

abbrev two : Bytes
two = 2 ∷ replicate_zero 31

member-delete :
    (k j : Bytes) (m : Map Bytes)
    → member j (keys (delete k m)) ≡ (member j (keys m) && not (beq k j))
unfolding member delete
member-delete k j [] = refl
member-delete k j ((i, v) ∷ m) =
    ground (arith, beq_iff i k, beq_iff i j, beq_iff k j, member-delete k j m)

AllAfter-delete :
    (k j : Bytes) (m : Map Bytes) → AllAfter j (keys m) → AllAfter j (keys (delete k m))
unfolding delete
AllAfter-delete k j [] a = tt
AllAfter-delete k j ((i, v) ∷ m) a = ground (arith, AllAfter-delete k j m a.1, a.0)

delete-Ascending : (k : Bytes) (m : Map Bytes) → Ascending (keys m) → Ascending (keys (delete k m))
unfolding delete
delete-Ascending k [] a = tt
delete-Ascending k ((i, v) ∷ m) a =
    ground (arith, delete-Ascending k m a.1, AllAfter-delete k i m a.0)

memory-IsDeleting : IsDeleting memory
memory-IsDeleting = record {
  member-del = λ s t k j e. ground (arith, e, member-delete k j s);
  del-Ascending = λ s t k e a. ground (arith, e, delete-Ascending k s a);
}

program : Unit {0}
unfolding print hex hex_digit replicate_zero lookup place beq bytes_less set get remove delete
program = tt

-- Two vertices and the edge between them.
abbrev linked : Map Bytes
linked =
    (edge_key store one two, codes "e")
    ∷ (vertex_key store one, codes "a")
    ∷ (vertex_key store two, codes "b")
    ∷ []

linked-Ascending : Ascending (keys linked)
unfolding program
linked-Ascending = ((refl, (refl, tt)), ((refl, tt), (tt, tt)))

-- The edge goes with the vertex that it leads to.
member-remove_vertex_example :
    member (edge_key store one two) (keys (remove_vertex store two linked).0) ≡ (
      member (edge_key store one two) (keys linked)
      && (not (beq (vertex_key store two) (edge_key store one two))
          && (not (has_prefix (outgoing_prefix store two) (edge_key store one two))
              && not (is_incoming store two (edge_key store one two)))))
unfolding program remove_vertex remove_incoming delete_where list_keys_with_prefix seek collect
    has_prefix split third_is
member-remove_vertex_example =
    member-remove_vertex store memory-IsDeleting two (edge_key store one two) linked
      linked-Ascending refl

apart : (x y : Bytes) → store.vertex_prefix ++ (colon ∷ x) ≢ store.edge_prefix ++ (colon ∷ y)
apart x y = λ e. absurd (omega (arith, ap first_of e))
  where
    first_of : Bytes → ℕ
    first_of [] = 0
    first_of (c ∷ cs) = c

-- The edge back.
abbrev linked_back : Map Bytes
linked_back = place (edge_key store two one) (codes "f") linked

edge-add_edge_example :
    (edge store two one linked_back ≡ found (two, (one, codes "f")))
    × ((c d : Bytes)
        → length c ≡ hash_size
        → ((c ≢ two) ⊎ (d ≢ one))
        → edge store c d linked_back ≡ edge store c d linked)
    × ((id : Bytes) → vertex store id linked_back ≡ vertex store id linked)
unfolding add_edge set replicate_zero
edge-add_edge_example =
    edge-add_edge store memory-IsStore linked linked_back two one (codes "f") (codes "f")
      (codes "f") refl apart refl refl refl refl
