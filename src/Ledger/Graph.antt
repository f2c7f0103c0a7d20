-- ===== src/Ledger/Graph.antt =====
-- What pkg/ledger uses of its graph of blocks: the package github.com/dominikbraun/graph over the
-- store of pkg/graphmdbx, and the database that both share. The package is a parameter.
pub mod Memory
use peerdns.Prelude.{◌≡◌, ◌≢◌, Bool, Option, none, some, List, Bytes, length, is_some}
use peerdns.Prelude.Map.{Map, has}
use peerdns.Types.Hash.{Hash, hash_size}
use peerdns.Types.Block.{Block}

-- `ErrVertexAlreadyExists` and `ErrEdgeAlreadyExists`, or any other error.
pub data GraphError : Type 0 where
  already_exists other : GraphError

pub record Graph : Type 1 where
  pub Contents : Type 0
  -- `AddVertex`, `Vertex` and `AddEdge`.
  pub add_vertex : Contents → Block → Contents × Option GraphError
  pub vertex : Contents → Hash → Option Block
  pub add_edge : Contents → Hash → Hash → Contents × Option GraphError
  -- `CreatesCycle`: `none` is an error.
  pub creates_cycle : Contents → Hash → Hash → Option Bool
  -- `AdjacencyMap`, with the targets of each vertex in an order in which `range` may visit them.
  pub adjacency_map : Contents → Option (Map (List Hash))
  -- `TopologicalSort`: `none` is an error.
  pub topological_sort : Contents → Option (List Hash)
  -- The vertices that `BFS` visits, in order, until the visit function stops it; `none` is an error.
  pub bfs : Contents → Hash → Option (List Hash)
  -- `Set` of the database; `none` is an error.
  pub set : Contents → Bytes → Bytes → Option Contents

-- What the package documents. A vertex is stored under its hash, an error leaves the graph as it
-- is, an edge needs two vertices, a key of another length than the vertices'
-- keeps them, and the adjacency map has all vertices.
pub record IsGraph (g : Graph) : Type 0 where
  pub vertex-add_vertex_self :
      (c : g.Contents) (b : Block)
      → (g.add_vertex c b).1 ≡ none
      → g.vertex (g.add_vertex c b).0 b.hash ≡ some b
  pub vertex-add_vertex_ne :
      (c : g.Contents) (b : Block) (h : Hash)
      → b.hash ≢ h
      → g.vertex (g.add_vertex c b).0 h ≡ g.vertex c h
  pub add_vertex_error :
      (c : g.Contents) (b : Block) (e : GraphError)
      → (g.add_vertex c b).1 ≡ some e
      → (g.add_vertex c b).0 ≡ c
  pub vertex-add_edge :
      (c : g.Contents) (source target h : Hash)
      → g.vertex (g.add_edge c source target).0 h ≡ g.vertex c h
  pub creates_cycle_unknown :
      (c : g.Contents) (source target : Hash)
      → g.vertex c source ≡ none
      → g.creates_cycle c source target ≡ none
  pub vertex-set :
      (c d : g.Contents) (k v : Bytes) (h : Hash)
      → length k ≡ hash_size
      → g.set c k v ≡ some d
      → g.vertex d h ≡ g.vertex c h
  pub has-adjacency_map :
      (c : g.Contents) (m : Map (List Hash)) (h : Hash)
      → g.adjacency_map c ≡ some m
      → has h m ≡ is_some (g.vertex c h)
