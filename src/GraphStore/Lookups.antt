-- ===== src/GraphStore/Lookups.antt =====
-- What is found after a vertex or an edge was added (pkg/graphmdbx/store.go).
use peerdns.Prelude.{
  ◌≡◌, ◌≢◌, ◌⊎◌, inl, inr, ap, some, ◌∷◌, ◌++◌, arith, Bytes, length, hex, hex-injective, sym, ◌∙◌,
  drop,
}
use peerdns.Types.Hash.{hash_size}
use peerdns.Storage.{IsStore, set, get}
use peerdns.GraphStore.{
  Store, found, hashes, print, colon, vertex_key, edge_key, add_vertex, vertex, add_edge, edge,
}
use peerdns.GraphStore.Keys.{append_left-injective, hex-pair-injective}

module _ {V E : Type 0} (g : Store V E) where
  -- No vertex and edge share a key.
  abbrev pub Apart : Type 0
  Apart = (x y : Bytes) → g.vertex_prefix ++ (colon ∷ x) ≢ g.edge_prefix ++ (colon ∷ y)

  -- A vertex that was added is found under its hash as what JSON reads from what it wrote of the
  -- vertex, where it reads that; the vertices of other hashes, and all edges, are found as before.
  -- The identifiers are hashes, and the prefixes such that no vertex and edge share a key.
  pub vertex-add_vertex :
      (laws : IsStore g.db) (s t : g.db.Contents) (id bytes : Bytes) (v read : V)
      → g.ids ≡ hashes
      → Apart
      → g.vertices.encode v ≡ some bytes
      → g.vertices.decode bytes ≡ some read
      → add_vertex g id v s ≡ some t
      → (vertex g id t ≡ found read)
        × ((other : Bytes) → other ≢ id → vertex g other t ≡ vertex g other s)
        × ((a b : Bytes) → edge g a b t ≡ edge g a b s)
  unfolding add_vertex vertex edge set get print
  vertex-add_vertex laws s t id bytes v read kind apart e d h =
      let put : g.db.put s (vertex_key g id) bytes ≡ some t = ground (arith, h, e) in
      (
        ground (arith, laws.get-put_self s t (vertex_key g id) bytes put, d),
        λ other ne.
            let keys : vertex_key g id ≢ vertex_key g other =
              λ same. ne (hex-injective other id (hex_of other id same)) in
            ground
              (arith, laws.get-put_ne s t (vertex_key g id) (vertex_key g other) bytes put keys),
        λ a b.
            ground
              (arith, laws.get-put_ne s t (vertex_key g id) (edge_key g a b) bytes put (apart _ _)),
      )
    where
      hex_of : (other id : Bytes) → vertex_key g id ≡ vertex_key g other → hex other ≡ hex id
      hex_of other id same =
          sym (ap (λ k. print k other) kind)
          ∙ sym (ap (drop 1) (append_left-injective g.vertex_prefix _ _ same))
          ∙ ap (λ k. print k id) kind

  -- An edge that was added is found between its hashes, with the properties that JSON reads from
  -- what it wrote of the given ones, where it reads that: they need not be those given. The edges
  -- between other hashes, and all vertices, are found as before. The identifiers are hashes, all
  -- sources have the fixed size, and the prefixes are such that no vertex and edge share a key.
  pub edge-add_edge :
      (laws : IsStore g.db) (s t : g.db.Contents) (a b bytes : Bytes) (p read : E)
      → g.ids ≡ hashes
      → Apart
      → g.edges.encode p ≡ some bytes
      → g.edges.decode bytes ≡ some read
      → length a ≡ hash_size
      → add_edge g a b p s ≡ some t
      → (edge g a b t ≡ found (a, (b, read)))
        × ((c d : Bytes) → length c ≡ hash_size → ((c ≢ a) ⊎ (d ≢ b)) → edge g c d t ≡ edge g c d s)
        × ((id : Bytes) → vertex g id t ≡ vertex g id s)
  unfolding add_edge vertex edge set get print
  edge-add_edge laws s t a b bytes p read kind apart e r n h =
      let put : g.db.put s (edge_key g a b) bytes ≡ some t = ground (arith, h, e) in
      (
        ground (arith, laws.get-put_self s t (edge_key g a b) bytes put, r),
        λ c d m ne.
            let keys : edge_key g a b ≢ edge_key g c d =
              λ same. differ c d ne (hex-pair-injective a b c d (n ∙ sym m) (hex_of c d same)) in
            ground (arith, laws.get-put_ne s t (edge_key g a b) (edge_key g c d) bytes put keys),
        λ id. ground (
          arith,
          laws.get-put_ne s t (edge_key g a b) (vertex_key g id) bytes put (λ k. apart _ _ (sym k)),
        ),
      )
    where
      differ : (c d : Bytes) → ((c ≢ a) ⊎ (d ≢ b)) → (a ≡ c) × (b ≡ d) → ⊥
      differ c d (inl ne) same = ne (sym same.0)
      differ c d (inr ne) same = ne (sym same.1)

      hex_of :
          (c d : Bytes)
          → edge_key g a b ≡ edge_key g c d
          → hex a ++ (colon ∷ hex b) ≡ hex c ++ (colon ∷ hex d)
      hex_of c d same =
          sym (ap (λ k. print k a ++ (colon ∷ print k b)) kind)
          ∙ ap (drop 1) (append_left-injective g.edge_prefix _ _ same)
          ∙ ap (λ k. print k c ++ (colon ∷ print k d)) kind
