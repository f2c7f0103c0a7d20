-- ===== src/Storage/Manager.antt =====
-- pkg/storage/manager.go, and the check that NewDb in mdbx.go makes: the databases by their names.
-- Opening and closing an environment of MDBX are parameters.
use peerdns.Prelude.{
  ℕ, ◌*◌, ◌%◌, ◌^◌, ◌≡◌, arith, Bool, false, Option, none, some, List, [], ◌∷◌, ◌++◌, if◌then◌else◌,
  Bytes, codes, beq, beq_iff,
}
use peerdns.Prelude.Int.{ℤ, pos, ltb_ℤ, to_int64, to_uint64}
use peerdns.Prelude.Map.{Map, lookup, has, insert, lookup-insert}

-- `config.MdbxNode`; sizes are int64.
pub record MdbxNode : Type 0 where
  pub name : Bytes
  pub path : Bytes
  pub max_readers : ℕ
  -- In gigabytes and in megabytes.
  pub max_size : ℤ
  pub min_size : ℤ
  pub growth_step : ℤ
  pub file_permissions : ℕ

-- The product with a constant, in 64 bits.
unfoldable pub scaled : ℤ → ℕ → ℤ
scaled z k = to_int64 ((to_uint64 z * k) % 2 ^ 64)

module _ (D : Type 0) (open_env : MdbxNode → Option D) where
  -- `NewDb`; `none` is an error.
  unfoldable pub new_db : MdbxNode → Option D
  new_db node =
      if ltb_ℤ (scaled node.max_size (1024 ^ 3)) (scaled node.min_size (1024 ^ 2))
      then none
      else open_env node

  -- The databases of the configuration; the first error ends it.
  unfoldable pub open_all : List MdbxNode → Map D → Option (Map D)
  open_all [] dbs = some dbs
  open_all (node ∷ nodes) dbs = elim (new_db node) [
    | none ↦ none
    | some db ↦ open_all nodes (insert node.name db dbs)
  ]

  -- `NewManager`, if MDBX is enabled or not.
  unfoldable pub new_manager : Bool → List MdbxNode → Option (Map D)
  new_manager enabled nodes = if enabled then open_all nodes [] else some []

  abbrev pub default_node : Bytes → MdbxNode
  default_node name = record {
    name = name;
    path = codes "./data/" ++ (name ++ codes ".mdbx");
    max_readers = 126;
    max_size = pos 1024;
    min_size = pos 1;
    growth_step = pos 10485760;
    -- 0600 in octal.
    file_permissions = 384;
  }

  -- A database that was opened is kept under its name.
  unfoldable pub keep_db : Bytes → Map D → Option D → Option D × Map D
  keep_db name dbs none = (none, dbs)
  keep_db name dbs (some db) = (some db, insert name db dbs)

  -- `CreateDb`
  unfoldable pub create_db : Bytes → Map D → Option D × Map D
  create_db name dbs =
      if has name dbs then (none, dbs) else keep_db name dbs (new_db (default_node name))

  -- `GetDb`
  unfoldable pub get_db : Bytes → Map D → Option D
  get_db name dbs = lookup name dbs

  lookup-keep_db :
      (name j : Bytes) (dbs : Map D) (o : Option D)
      → has name dbs ≡ false
      → lookup j (keep_db name dbs o).1
        ≡ (if beq name j then (keep_db name dbs o).0 else lookup j dbs)
  unfolding keep_db
  lookup-keep_db name j dbs none h = ground (arith, beq_iff name j)
  lookup-keep_db name j dbs (some db) h = lookup-insert name j db dbs

  -- What a name gives after a database was created: a database that was there stays, and the new
  -- one is found under its name.
  get_db-create_db :
      (name j : Bytes) (dbs : Map D)
      → get_db j (create_db name dbs).1 ≡ (
          if beq name j
          then (if has name dbs then lookup name dbs else (create_db name dbs).0)
          else get_db j dbs)
  unfolding get_db create_db
  get_db-create_db name j dbs =
      ground (arith, lookup-keep_db name j dbs (new_db (default_node name)), beq_iff name j)
