-- ===== src/Sharding/Manager.antt =====
-- pkg/sharding/manager.go: the manager of shards. The hash of package hash/fnv and the text of an
-- identifier are parameters.
pub mod Placement
use peerdns.Prelude.{
  ℕ, zero, suc, ◌%◌, Bool, true, false, Option, none, some, List, [], ◌∷◌, ◌++◌, ◌==◌,
  if◌then◌else◌, Bytes,
}
use peerdns.Prelude.Int.{ℤ, pos, negsuc, pos_part}
use peerdns.Packets.PeerId.{PeerId}
use peerdns.Sharding.Shard
use peerdns.Sharding.Shard.{Shard, new_shard, has_validator, clear_validators, list_validators}

-- What a call gives: a value, an error, or a panic.
pub data Outcome {ℓ} (A : Type ℓ) : Type ℓ where
  done : A → Outcome A
  failed : Outcome A
  panicked : Outcome A

-- `Shards` is a map from shard numbers.
abbrev pub Shards : Type 0
Shards = List (ℕ × Shard)

pub record ShardManager : Type 0 where
  pub shard_count : ℤ
  pub shards : Shards

-- Shards number `i` to `i + n - 1`.
unfoldable pub make_shards : ℕ → ℕ → Shards
make_shards zero i = []
make_shards (suc n) i = (i, new_shard i) ∷ make_shards n (suc i)

-- `NewShardManager`
unfoldable pub new_shard_manager : ℤ → ShardManager
new_shard_manager shard_count = record {
  shard_count = shard_count;
  shards = make_shards (pos_part shard_count) 0;
}

-- `sm.Shards[i]`
unfoldable pub shard_at : ℕ → Shards → Option Shard
shard_at i [] = none
shard_at i ((j, s) ∷ shards) = let rest = shard_at i shards in if j == i then some s else rest

-- A change of the shard with a number, which is a pointer in the source.
unfoldable pub update_at : ℕ → (Shard → Shard) → Shards → Shards
update_at i f [] = []
update_at i f ((j, s) ∷ shards) =
    let rest = update_at i f shards in if j == i then (j, f s) ∷ rest else (j, s) ∷ rest

-- The number of the first shard that has the validator.
unfoldable pub find_holder : PeerId → Shards → Option ℕ
find_holder v [] = none
find_holder v ((j, s) ∷ shards) =
    let rest = find_holder v shards in if has_validator v s then some j else rest

-- The remainder of a hash by the count: by zero it panics, and a negative count gives the remainder
-- by its absolute value.
unfoldable pub bucket : ℤ → ℕ → Option ℕ
bucket (pos zero) h = none
bucket (pos (suc n)) h = some (h % suc n)
bucket (negsuc n) h = some (h % suc n)

-- Every validator of every shard, and every shard without its validators.
unfoldable pub all_validators : Shards → List PeerId
all_validators [] = []
all_validators ((j, s) ∷ shards) = list_validators s ++ all_validators shards

unfoldable pub clear_all : Shards → Shards
clear_all [] = []
clear_all ((j, s) ∷ shards) = (j, clear_validators s) ∷ clear_all shards

module _ (hash : Bytes → ℕ) (peer_string : PeerId → Bytes) where
  -- `hashValidator`
  unfoldable pub hash_validator : PeerId → ℕ
  hash_validator v = hash (peer_string v)

  -- The shard of a number gains the validator; a shard that is missing is a nil pointer.
  unfoldable pub put_in : PeerId → ℕ → ShardManager → Outcome ℕ × ShardManager
  put_in v i m = elim (shard_at i m.shards) [
    | none ↦ (panicked, m)
    | some s ↦ (done i, record m { shards = update_at i (Shard.add_validator v) m.shards })
  ]

  unfoldable pub place : PeerId → Option ℕ → ShardManager → Outcome ℕ × ShardManager
  place v none m = (panicked, m)
  place v (some i) m = put_in v i m

  -- `AssignValidator`
  unfoldable pub assign_validator : PeerId → ShardManager → Outcome ℕ × ShardManager
  assign_validator v m = elim (find_holder v m.shards) [
    | some i ↦ (done i, m)
    | none ↦ place v (bucket m.shard_count (hash_validator v)) m
  ]

  -- `RemoveValidator`
  unfoldable pub remove_validator : PeerId → ShardManager → Outcome (Unit {0}) × ShardManager
  remove_validator v m = elim (find_holder v m.shards) [
    | none ↦ (failed, m)
    | some i ↦ (done tt, record m { shards = update_at i (Shard.remove_validator v) m.shards })
  ]

  -- `GetShard`
  unfoldable pub get_shard : ℕ → ShardManager → Outcome Shard
  get_shard i m = elim (shard_at i m.shards) [ none ↦ failed | some s ↦ done s ]

  -- `GetValidatorsInShard`
  unfoldable pub get_validators_in_shard : ℕ → ShardManager → Outcome (List PeerId)
  get_validators_in_shard i m = elim (shard_at i m.shards) [
    | none ↦ failed
    | some s ↦ done (list_validators s)
  ]

  -- `GetShardForData`
  unfoldable pub get_shard_for_data : Bytes → ShardManager → Outcome Shard
  get_shard_for_data key m = elim (bucket m.shard_count (hash key)) [
    | none ↦ panicked
    | some i ↦ get_shard i m
  ]

  -- The reassignment of each validator; a panic ends it.
  unfoldable pub reassign : List PeerId → ShardManager → Outcome (Unit {0}) × ShardManager
  reassign [] m = (done tt, m)
  reassign (v ∷ vs) m =
      let (r, m') = place v (bucket m.shard_count (hash_validator v)) m in
      let rest = reassign vs m' in
      elim r [ done i ↦ rest | failed ↦ (failed, m') | panicked ↦ (panicked, m') ]

  -- `RebalanceShards`
  unfoldable pub rebalance_shards : ShardManager → Outcome (Unit {0}) × ShardManager
  rebalance_shards m = reassign (all_validators m.shards) (record m { shards = clear_all m.shards })
