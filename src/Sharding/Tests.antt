-- ===== src/Sharding/Tests.antt =====
-- Instances of the theorems on three shards (pkg/sharding).
use peerdns.Prelude.{ℕ, ◌+◌, ◌≡◌, refl, true, some, List, [], ◌∷◌, Bytes, beq}
use peerdns.Prelude.Int.{pos}
use peerdns.Prelude.Map.{lookup, insert, delete}
use peerdns.Packets.PeerId.{PeerId}
use peerdns.Sharding.Shard
use peerdns.Sharding.Shard.{Shard, has_validator}
use peerdns.Sharding.Manager
use peerdns.Sharding.Manager.{new_shard_manager, shard_at, done, assign_validator, rebalance_shards}
use peerdns.Sharding.Manager.Placement.{Event, assigns, removes, rebalances, home, run, run-home}

abbrev sum : Bytes → ℕ
sum [] = 0
sum (b ∷ bs) = b + sum bs

abbrev text : PeerId → Bytes
text id = id

abbrev events : List Event
events = assigns (1 ∷ []) ∷ assigns (2 ∷ []) ∷ rebalances ∷ assigns (4 ∷ []) ∷ removes (2 ∷ []) ∷ []

run-home_example :
    let m = run sum text 2 events (new_shard_manager (pos 3)) in
    ((i : ℕ) (s : Shard)
      → shard_at i m.shards ≡ some s
      → has_validator (4 ∷ []) s ≡ true
      → i ≡ home sum text 2 (4 ∷ []))
    × ((assign_validator sum text (4 ∷ []) m).0 ≡ done (home sum text 2 (4 ∷ [])))
    × ((rebalance_shards sum text m).0 ≡ done tt)
run-home_example = run-home sum text 2 events (4 ∷ [])

-- Two validators share a shard, and the third was removed.
shared :
    Manager.get_validators_in_shard sum text 1 (run sum text 2 events (new_shard_manager (pos 3)))
    ≡ done ((1 ∷ []) ∷ (4 ∷ []) ∷ [])
unfolding run new_shard_manager shard_at assign_validator rebalance_shards has_validator lookup
    insert delete beq Manager.get_validators_in_shard Manager.make_shards Manager.update_at
    Manager.find_holder Manager.bucket Manager.all_validators Manager.clear_all
    Manager.hash_validator Manager.put_in Manager.place Manager.remove_validator Manager.reassign
    Shard.new_shard Shard.add_validator Shard.remove_validator Shard.clear_validators
    Shard.list_validators
shared = refl
