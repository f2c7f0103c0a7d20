-- ===== src/GraphStore/Removal.antt =====
-- What is left after a vertex was removed (pkg/graphmdbx/store.go).
use mathlib.Core.Path.{subst}
use peerdns.Prelude.{
  ◌≡◌, refl, sym, ap, ◌∙◌, Bool, true, false, not, ◌&&◌, ◌||◌, some, List, [], ◌∷◌, ◌++◌, arith,
  Bytes, beq, beq_iff, keep, Bool-cases, Option-cases, inl, inr,
}
use peerdns.Storage.{Mdbx, remove, has_prefix, list_keys_with_prefix}
use peerdns.Storage.Keys.{Ascending, list_keys_with_prefix-keep}
use peerdns.GraphStore.{
  Store, colon, print, split, third_is, vertex_key, outgoing_prefix, delete_where, remove_incoming,
  remove_vertex,
}

-- Whether a key is in a list.
unfoldable pub member : Bytes → List Bytes → Bool
member k [] = false
member k (j ∷ js) = beq j k || member k js

-- What MDBX documents of a delete that succeeds: the key is gone, the others stay in their order.
pub record IsDeleting (db : Mdbx) : Type 0 where
  pub member-del :
      (s t : db.Contents) (k j : Bytes)
      → db.del s k ≡ some t
      → member j (db.keys t) ≡ (member j (db.keys s) && not (beq k j))
  pub del-Ascending :
      (s t : db.Contents) (k : Bytes)
      → db.del s k ≡ some t
      → Ascending (db.keys s)
      → Ascending (db.keys t)

member-keep :
    (p : Bytes → Bool) (k : Bytes) (ks : List Bytes) → member k (keep p ks) ≡ (member k ks && p k)
unfolding member keep
member-keep p k [] = refl
member-keep p k (j ∷ js) = ground (arith, beq_iff j k, member-keep p k js)

module _ {V E : Type 0} (g : Store V E) where
  -- The key of an edge into a vertex, as `RemoveVertex` takes it apart.
  abbrev pub is_incoming : Bytes → Bytes → Bool
  is_incoming id k =
      has_prefix (g.edge_prefix ++ (colon ∷ [])) k && third_is (print g.ids id) (split k)

module _ {V E : Type 0} (g : Store V E) (laws : IsDeleting g.db) where
  abbrev Left : (Bytes → Bool) → g.db.Contents → g.db.Contents → Type 0
  Left gone s t =
      Ascending (g.db.keys t)
      × ((k : Bytes) → member k (g.db.keys t) ≡ (member k (g.db.keys s) && not (gone k)))

  remove-Left :
      (s t : g.db.Contents) (k : Bytes)
      → Ascending (g.db.keys s)
      → remove g.db s k ≡ some t
      → Left (beq k) s t
  unfolding remove
  remove-Left s t k a e = (laws.del-Ascending s t k e a, λ j. laws.member-del s t k j e)

  -- The keys that pass the test are gone.
  delete_where-Left :
      (p : Bytes → Bool) (ks : List Bytes) (s : g.db.Contents)
      → Ascending (g.db.keys s)
      → (delete_where g p ks s).1 ≡ true
      → Left (λ k. member k ks && p k) s (delete_where g p ks s).0
  unfolding delete_where member
  delete_where-Left p [] s a ok = (a, λ k. ground arith)
  delete_where-Left p (j ∷ js) s a ok = elim (Bool-cases (p j)) [
    | inr e ↦
        let same : delete_where g p (j ∷ js) s ≡ delete_where g p js s =
          rw (delete_where, e) refl in
        let rest = delete_where-Left p js s a (subst (λ r. r.1 ≡ true) same ok) in
        subst (λ r. Left (λ k. member k (j ∷ js) && p k) s r.0) (sym same)
          (rest.0, λ k. ground (arith, rest.1 k, beq_iff j k, e))
    | inl e ↦ elim (Option-cases (remove g.db s j)) [
      | inl f ↦ absurd (ground (arith, ok, e, f))
      | inr (t, f) ↦
          let first = remove-Left s t j a f in
          let same : delete_where g p (j ∷ js) s ≡ delete_where g p js t =
            rw (delete_where, e, f) refl in
          let rest = delete_where-Left p js t first.0 (subst (λ r. r.1 ≡ true) same ok) in
          subst (λ r. Left (λ k. member k (j ∷ js) && p k) s r.0) (sym same)
            (rest.0, λ k. ground (arith, rest.1 k, first.1 k, beq_iff j k, e))
    ]
  ]

  -- The keys with a prefix that pass a test are gone.
  delete_prefix-Left :
      (p : Bytes → Bool) (prefix : Bytes) (s : g.db.Contents)
      → Ascending (g.db.keys s)
      → (delete_where g p (list_keys_with_prefix g.db s prefix) s).1 ≡ true
      → (Ascending (g.db.keys (delete_where g p (list_keys_with_prefix g.db s prefix) s).0))
        × ((k : Bytes)
            → member k (g.db.keys (delete_where g p (list_keys_with_prefix g.db s prefix) s).0)
              ≡ (member k (g.db.keys s) && not (has_prefix prefix k && p k)))
  delete_prefix-Left p prefix s a ok =
      let listed = list_keys_with_prefix-keep g.db s prefix a in
      let left = delete_where-Left p (list_keys_with_prefix g.db s prefix) s a ok in
      (
        left.0,
        λ k. ground (
          arith,
          left.1 k,
          ap (member k) listed,
          member-keep (has_prefix prefix) k (g.db.keys s),
        ),
      )

  remove_incoming-passed :
      (id : Bytes) (u : g.db.Contents)
      → remove_incoming g id (u, true)
        ≡ delete_where g
            (λ j. third_is (print g.ids id) (split j))
            (list_keys_with_prefix g.db u (g.edge_prefix ++ (colon ∷ [])))
            u
  unfolding remove_incoming
  remove_incoming-passed id u = refl

  remove_incoming-refused :
      (id : Bytes) (u : g.db.Contents) → (remove_incoming g id (u, false)).1 ≡ false
  unfolding remove_incoming
  remove_incoming-refused id u = refl

  -- `RemoveVertex`, where it succeeds, removes the vertex, every edge out of it, and every edge into
  -- it whose key has three parts, and nothing else. The keys are ascending.
  pub member-remove_vertex :
      (id k : Bytes) (s : g.db.Contents)
      → Ascending (g.db.keys s)
      → (remove_vertex g id s).1 ≡ true
      → member k (g.db.keys (remove_vertex g id s).0) ≡ (
          member k (g.db.keys s)
          && (not (beq (vertex_key g id) k)
              && (not (has_prefix (outgoing_prefix g id) k) && not (is_incoming g id k))))
  unfolding remove_vertex
  member-remove_vertex id k s a ok = elim (Option-cases (remove g.db s (vertex_key g id))) [
    | inl e ↦ absurd (ground (arith, ok, e))
    | inr (t, e) ↦
        let out =
          delete_where g (λ j. true) (list_keys_with_prefix g.db t (outgoing_prefix g id)) t in
        let same : remove_vertex g id s ≡ remove_incoming g id out = rw (remove_vertex, e) refl in
        let first = remove-Left s t (vertex_key g id) a e in
        subst
          (λ r. member k (g.db.keys r.0) ≡ (
            member k (g.db.keys s)
            && (not (beq (vertex_key g id) k)
                && (not (has_prefix (outgoing_prefix g id) k) && not (is_incoming g id k)))))
          (sym same) (go t first out refl (subst (λ r. r.1 ≡ true) same ok))
  ]
    where
      go :
          (t : g.db.Contents)
          → Left (beq (vertex_key g id)) s t
          → (out : g.db.Contents × Bool)
          → delete_where g (λ j. true) (list_keys_with_prefix g.db t (outgoing_prefix g id)) t ≡ out
          → (remove_incoming g id out).1 ≡ true
          → member k (g.db.keys (remove_incoming g id out).0) ≡ (
              member k (g.db.keys s)
              && (not (beq (vertex_key g id) k)
                  && (not (has_prefix (outgoing_prefix g id) k) && not (is_incoming g id k))))
      go t first (u, false) e done = absurd (ground (arith, done, remove_incoming-refused id u))
      go t first (u, true) e done =
          let second =
            delete_prefix-Left (λ j. true) (outgoing_prefix g id) t first.0 (ap (λ r. r.1) e) in
          let ascending : Ascending (g.db.keys u) =
            subst (λ r. Ascending (g.db.keys r.0)) e second.0 in
          let left = ap (λ r. member k (g.db.keys r.0)) (sym e) ∙ second.1 k in
          let third =
            delete_prefix-Left (λ j. third_is (print g.ids id) (split j))
              (g.edge_prefix ++ (colon ∷ [])) u ascending
              (sym (ap (λ r. r.1) (remove_incoming-passed id u)) ∙ done) in
          ap (λ r. member k (g.db.keys r.0)) (remove_incoming-passed id u)
          ∙ ground (arith, first.1 k, left, third.1 k)
