-- ===== src/GraphStore.antt =====
-- pkg/graphmdbx: vertices and edges of a graph under keys of a database. The JSON codec and the
-- types of the values and of the properties are parameters, and a key of the graph is a byte string.
pub mod Keys
pub mod Lookups
pub mod Removal
pub mod Tests
use peerdns.Prelude.{
  ℕ, Bool, true, false, Option, none, some, List, [], ◌∷◌, ◌++◌, ◌==◌, if◌then◌else◌, Bytes, codes,
  beq, hex, length, drop,
}
use peerdns.Types.Hash.{hash_size}
use peerdns.Types.Address.{unhex}
use peerdns.Storage.{Mdbx, set, get, remove, has_prefix, list_keys_with_prefix}

-- What `K` is: a string, a `types.Hash`, or a type that `decodeID` does not support.
pub data IdType : Type 0 where
  strings hashes unsupported : IdType

-- How `%v` prints an identifier.
unfoldable pub print : IdType → Bytes → Bytes
print strings id = id
print hashes id = hex id
print unsupported id = id

unfoldable pub hash_of : Option Bytes → Option Bytes
hash_of none = none
hash_of (some bytes) = if length bytes == hash_size then some bytes else none

-- `decodeID`
unfoldable pub decode_id : IdType → Bytes → Option Bytes
decode_id strings s = some s
decode_id hashes s = hash_of (unhex s)
decode_id unsupported s = none

-- JSON for a type.
pub record Codec (V : Type 0) : Type 0 where
  pub encode : V → Option Bytes
  pub decode : Bytes → Option V

-- An entry, no entry, or one that cannot be read.
pub data Found (V : Type 0) : Type 0 where
  found : V → Found V
  not_found unreadable : Found V

abbrev pub colon : ℕ
colon = 58

abbrev pub prepend : ℕ → List Bytes → List Bytes
prepend c [] = (c ∷ []) ∷ []
prepend c (p ∷ ps) = (c ∷ p) ∷ ps

-- `strings.Split(s, ":")`
unfoldable pub split : Bytes → List Bytes
split [] = [] ∷ []
split (c ∷ cs) = let rest = split cs in if c == colon then [] ∷ rest else prepend c rest

-- `strings.TrimPrefix`
unfoldable pub trim_prefix : Bytes → Bytes → Bytes
trim_prefix prefix s = if has_prefix prefix s then drop (length prefix) s else s

-- Whether the third of three parts is the identifier.
unfoldable pub third_is : Bytes → List Bytes → Bool
third_is id (a ∷ b ∷ c ∷ []) = beq c id
third_is id [] = false
third_is id (a ∷ []) = false
third_is id (a ∷ b ∷ []) = false
third_is id (a ∷ b ∷ c ∷ d ∷ ps) = false

-- `V` are the vertices with their properties, `E` the properties of the edges.
pub record Store (V E : Type 0) : Type 1 where
  pub db : Mdbx
  pub ids : IdType
  pub vertex_prefix : Bytes
  pub edge_prefix : Bytes
  pub vertices : Codec V
  pub edges : Codec E

module _ {V E : Type 0} (g : Store V E) where
  -- `<vertex prefix>:<id>`
  abbrev pub vertex_key : Bytes → Bytes
  vertex_key id = g.vertex_prefix ++ (colon ∷ print g.ids id)

  -- `<edge prefix>:<source>:`
  abbrev pub outgoing_prefix : Bytes → Bytes
  outgoing_prefix source = g.edge_prefix ++ (colon ∷ (print g.ids source ++ (colon ∷ [])))

  -- `<edge prefix>:<source>:<target>`
  abbrev pub edge_key : Bytes → Bytes → Bytes
  edge_key source target =
      g.edge_prefix ++ (colon ∷ (print g.ids source ++ (colon ∷ print g.ids target)))

  -- `AddVertex`, with `none` for an error.
  unfoldable pub add_vertex : Bytes → V → g.db.Contents → Option g.db.Contents
  add_vertex id v s = elim (g.vertices.encode v) [
    | none ↦ none
    | some bytes ↦ set g.db s (vertex_key id) bytes
  ]

  -- `Vertex`
  unfoldable pub vertex : Bytes → g.db.Contents → Found V
  vertex id s = elim (get g.db s (vertex_key id)) [
    | none ↦ not_found
    | some bytes ↦ elim (g.vertices.decode bytes) [ none ↦ unreadable | some v ↦ found v ]
  ]

  -- A loop that deletes those of the keys that pass a test, each in a transaction of its own: an
  -- error, `false`, ends it.
  unfoldable pub delete_where : (Bytes → Bool) → List Bytes → g.db.Contents → g.db.Contents × Bool
  delete_where p [] s = (s, true)
  delete_where p (k ∷ ks) s =
      if p k
      then elim (remove g.db s k) [ none ↦ (s, false) | some t ↦ delete_where p ks t ]
      else delete_where p ks s

  -- The loop over the edges into a vertex.
  unfoldable pub remove_incoming : Bytes → g.db.Contents × Bool → g.db.Contents × Bool
  remove_incoming id (s, false) = (s, false)
  remove_incoming id (s, true) =
      delete_where (λ k. third_is (print g.ids id) (split k))
        (list_keys_with_prefix g.db s (g.edge_prefix ++ (colon ∷ []))) s

  -- `RemoveVertex`: the contents, and whether there was no error.
  unfoldable pub remove_vertex : Bytes → g.db.Contents → g.db.Contents × Bool
  remove_vertex id s = elim (remove g.db s (vertex_key id)) [
    | none ↦ (s, false)
    | some t ↦
        remove_incoming id
          (delete_where (λ k. true) (list_keys_with_prefix g.db t (outgoing_prefix id)) t)
  ]

  -- The loop of `ListVertices`: an identifier that cannot be decoded is an error.
  unfoldable pub decode_ids : List Bytes → Option (List Bytes)
  decode_ids [] = some []
  decode_ids (k ∷ ks) =
      let rest = decode_ids ks in
      elim (decode_id g.ids (trim_prefix (g.vertex_prefix ++ (colon ∷ [])) k)) [
        | none ↦ none
        | some id ↦ elim rest [ none ↦ none | some ids ↦ some (id ∷ ids) ]
      ]

  -- `ListVertices`
  unfoldable pub list_vertices : g.db.Contents → Option (List Bytes)
  list_vertices s = decode_ids (list_keys_with_prefix g.db s (g.vertex_prefix ++ (colon ∷ [])))

  -- `VertexCount`
  unfoldable pub vertex_count : g.db.Contents → Option ℕ
  vertex_count s = elim (list_vertices s) [ none ↦ none | some ids ↦ some (length ids) ]

  -- `AddEdge`, with `none` for an error.
  unfoldable pub add_edge : Bytes → Bytes → E → g.db.Contents → Option g.db.Contents
  add_edge source target e s = elim (g.edges.encode e) [
    | none ↦ none
    | some bytes ↦ set g.db s (edge_key source target) bytes
  ]

  -- `UpdateEdge`, which does not ask for the edge to be there.
  unfoldable pub update_edge : Bytes → Bytes → E → g.db.Contents → Option g.db.Contents
  update_edge source target e s = elim (g.edges.encode e) [
    | none ↦ none
    | some bytes ↦ set g.db s (edge_key source target) bytes
  ]

  -- `RemoveEdge`, with `none` for an error.
  unfoldable pub remove_edge : Bytes → Bytes → g.db.Contents → Option g.db.Contents
  remove_edge source target s = remove g.db s (edge_key source target)

  -- `Edge`
  unfoldable pub edge : Bytes → Bytes → g.db.Contents → Found (Bytes × (Bytes × E))
  edge source target s = elim (get g.db s (edge_key source target)) [
    | none ↦ not_found
    | some bytes ↦ elim (g.edges.decode bytes) [
      | none ↦ unreadable
      | some e ↦ found (source, (target, e))
    ]
  ]

  -- An edge that cannot be read is left out.
  abbrev pub keep_edge :
      Found (Bytes × (Bytes × E)) → List (Bytes × (Bytes × E)) → List (Bytes × (Bytes × E))
  keep_edge (found e) es = e ∷ es
  keep_edge not_found es = es
  keep_edge unreadable es = es

  -- The body of the loop of `ListEdges`, with what the later keys give.
  unfoldable pub edge_of_parts :
      List Bytes
      → g.db.Contents
      → Option (List (Bytes × (Bytes × E)))
      → Option (List (Bytes × (Bytes × E)))
  edge_of_parts (a ∷ b ∷ []) s rest = elim (decode_id g.ids a) [
    | none ↦ none
    | some source ↦ elim (decode_id g.ids b) [
      | none ↦ none
      | some target ↦ elim rest [
        | none ↦ none
        | some es ↦ some (keep_edge (edge source target s) es)
      ]
    ]
  ]
  edge_of_parts [] s rest = rest
  edge_of_parts (a ∷ []) s rest = rest
  edge_of_parts (a ∷ b ∷ c ∷ ps) s rest = rest

  unfoldable pub edges_of : List Bytes → g.db.Contents → Option (List (Bytes × (Bytes × E)))
  edges_of [] s = some []
  edges_of (k ∷ ks) s =
      edge_of_parts (split (trim_prefix (g.edge_prefix ++ (colon ∷ [])) k)) s (edges_of ks s)

  -- `ListEdges`
  unfoldable pub list_edges : g.db.Contents → Option (List (Bytes × (Bytes × E)))
  list_edges s = edges_of (list_keys_with_prefix g.db s (g.edge_prefix ++ (colon ∷ []))) s

  -- `EdgeCount`
  unfoldable pub edge_count : g.db.Contents → Option ℕ
  edge_count s = elim (list_edges s) [ none ↦ none | some es ↦ some (length es) ]
