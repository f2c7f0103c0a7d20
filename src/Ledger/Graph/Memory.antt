-- ===== src/Ledger/Graph/Memory.antt =====
-- A graph in memory.
use mathlib.Core.Path.{subst}
use peerdns.Prelude.{
  some_equal, ◌≡◌, refl, is_some, Bool, false, none, some, List, [], ◌∷◌, ◌++◌, arith,
  if◌then◌else◌, beq, beq_iff, beq_refl, ℕ, zero, suc, ◌||◌, map, Bytes, ◌&&◌,
}
use peerdns.Prelude.Map.{Map, lookup, insert, has, lookup-insert}
use peerdns.Types.Hash.{Hash}
use peerdns.Types.Block.{Block}
use peerdns.Ledger.Graph.{Graph, IsGraph, already_exists, other}

-- The blocks, the edges, and the other keys of the database.
pub record Stored : Type 0 where
  pub blocks : Map Block
  pub edges : List (Hash × Hash)
  pub entries : Map Bytes

unfoldable pub targets_of : Hash → List (Hash × Hash) → List Hash
targets_of h [] = []
targets_of h ((a, b) ∷ es) = let rest = targets_of h es in if beq a h then b ∷ rest else rest

unfoldable pub any_equal : Hash → List Hash → Bool
any_equal h [] = false
any_equal h (x ∷ xs) = beq x h || any_equal h xs

-- The vertices on the way from some of them, breadth first, on fuel.
unfoldable pub search_from : ℕ → List (Hash × Hash) → List Hash → List Hash → List Hash
search_from zero es seen queue = seen
search_from (suc fuel) es seen [] = seen
search_from (suc fuel) es seen (h ∷ queue) =
    let skip = search_from fuel es seen queue in
    let visit = search_from fuel es (seen ++ h ∷ []) (queue ++ targets_of h es) in
    if any_equal h seen then skip else visit

abbrev pub reached : Hash → List (Hash × Hash) → List Hash
reached h es = search_from 20 es [] (h ∷ [])

abbrev pub in_memory : Graph
in_memory = record {
  Contents = Stored;
  add_vertex = λ s b.
      if has b.hash s.blocks
      then (s, some already_exists)
      else (record s { blocks = insert b.hash b s.blocks }, none);
  vertex = λ s h. lookup h s.blocks;
  add_edge = λ s a b.
      if has a s.blocks && has b s.blocks
      then (if any_equal b (targets_of a s.edges)
          then (s, some already_exists)
          else (record s { edges = s.edges ++ (a, b) ∷ [] }, none))
      else (s, some other);
  creates_cycle = λ s a b.
      if has a s.blocks && has b s.blocks then some (any_equal a (reached b s.edges)) else none;
  adjacency_map = λ s. some (map (λ e. (e.0, targets_of e.0 s.edges)) s.blocks);
  topological_sort = λ s. some (map (λ e. e.0) s.blocks);
  bfs = λ s h. if has h s.blocks then some (reached h s.edges) else none;
  set = λ s k v. some (record s { entries = insert k v s.entries });
}

abbrev pub no_blocks : Stored
no_blocks = record { blocks = []; edges = []; entries = [] }

has-map :
    (h : Hash) (es : List (Hash × Hash)) (m : Map Block)
    → has h (map (λ e. (e.0, targets_of e.0 es)) m) ≡ is_some (lookup h m)
unfolding lookup
has-map h es [] = refl
has-map h es ((k, b) ∷ m) = ground (arith, has-map h es m)

pub in_memory-IsGraph : IsGraph in_memory
in_memory-IsGraph = record {
  vertex-add_vertex_self =
      λ s b h. ground (arith, lookup-insert b.hash b.hash b s.blocks, beq_refl b.hash);
  vertex-add_vertex_ne =
      λ s b h ne. ground (arith, lookup-insert b.hash h b s.blocks, beq_iff b.hash h);
  add_vertex_error = λ s b e h. ground arith;
  vertex-add_edge = λ s a b h. ground arith;
  creates_cycle_unknown = λ s a b h. ground arith;
  vertex-set = λ s t k v h n e. ground arith;
  has-adjacency_map = λ s m h e.
      subst (λ a. has h a ≡ is_some (lookup h s.blocks)) (some_equal e)
        (has-map h s.edges s.blocks);
}
