-- ===== src/Sharding/Shard.antt =====
-- pkg/sharding/shard.go: one shard.
use peerdns.Prelude.{ℕ, Bool, Option, List, [], Bytes}
use peerdns.Prelude.Map.{Map, lookup, has, insert, delete, keys}
use peerdns.Packets.PeerId.{PeerId}

-- `validators` is a map to empty structs.
pub record Shard : Type 0 where
  pub id : ℕ
  pub validators : Map (Unit {0})
  pub entries : Map Bytes

-- `NewShard`
unfoldable pub new_shard : ℕ → Shard
new_shard id = record { id = id; validators = []; entries = [] }

-- `AddValidator`
unfoldable pub add_validator : PeerId → Shard → Shard
add_validator v s = record s { validators = insert v tt s.validators }

-- `RemoveValidator`
unfoldable pub remove_validator : PeerId → Shard → Shard
remove_validator v s = record s { validators = delete v s.validators }

-- `HasValidator`
unfoldable pub has_validator : PeerId → Shard → Bool
has_validator v s = has v s.validators

-- `ClearValidators`
unfoldable pub clear_validators : Shard → Shard
clear_validators s = record s { validators = [] }

-- `StoreData`
unfoldable pub store_data : Bytes → Bytes → Shard → Shard
store_data key value s = record s { entries = insert key value s.entries }

-- `RetrieveData`
unfoldable pub retrieve_data : Bytes → Shard → Option Bytes
retrieve_data key s = lookup key s.entries

-- `ListValidators`
unfoldable pub list_validators : Shard → List PeerId
list_validators s = keys s.validators
