-- ===== src/Sharding/Manager/Placement.antt =====
-- Where the validators are (pkg/sharding/manager.go): in the shard of their hash.
use mathlib.Core.Path.{subst}
use peerdns.Prelude.{
  sym, ap, ◌∙◌, ℕ, zero, suc, ◌+◌, ◌%◌, ◌<◌, ◌≤◌, ◌≡◌, refl, arith, ◌==◌, ==_iff, true, Option,
  none, some, List, [], ◌∷◌, Bytes, beq_iff, is_some, Bool-cases, inl, inr,
}
use peerdns.Prelude.Int.{pos}
use peerdns.Prelude.Map.{lookup, lookup-insert, lookup-delete}
use peerdns.Packets.PeerId.{PeerId}
use peerdns.Sharding.Shard
use peerdns.Sharding.Shard.{Shard, new_shard, has_validator, clear_validators}
use peerdns.Sharding.Manager.{
  Outcome, done, failed, panicked, Shards, ShardManager, make_shards, new_shard_manager, shard_at,
  update_at, find_holder, bucket, clear_all, all_validators, hash_validator, put_in, place,
  assign_validator, remove_validator, reassign, rebalance_shards,
}

pub data Event : Type 0 where
  assigns removes : PeerId → Event
  rebalances : Event

shard_at-update_at :
    (i j : ℕ) (f : Shard → Shard) (shards : Shards)
    → is_some (shard_at j (update_at i f shards)) ≡ is_some (shard_at j shards)
unfolding shard_at update_at
shard_at-update_at i j f [] = refl
shard_at-update_at i j f ((k, s) ∷ shards) = ground (arith, shard_at-update_at i j f shards)

shard_at-clear_all :
    (j : ℕ) (shards : Shards)
    → is_some (shard_at j (clear_all shards)) ≡ is_some (shard_at j shards)
unfolding shard_at clear_all
shard_at-clear_all j [] = refl
shard_at-clear_all j ((k, s) ∷ shards) = ground (arith, shard_at-clear_all j shards)

shard_at-make_shards :
    (n i j : ℕ) → i ≤ j → j < i + n → is_some (shard_at j (make_shards n i)) ≡ true
unfolding shard_at make_shards
shard_at-make_shards zero i j l h = absurd (omega arith)
shard_at-make_shards (suc n) i j l h =
    let rest = shard_at-make_shards n (suc i) j in
    elim (Bool-cases (i == j)) [
      | inl e ↦ rw (e) refl
      | inr e ↦ rw (e) (rest (ground (arith, e)) (omega arith))
    ]

module _ (hash : Bytes → ℕ) (peer_string : PeerId → Bytes) (n : ℕ) where
  -- The number of a validator's shard among `n + 1`.
  abbrev pub home : PeerId → ℕ
  home v = hash_validator hash peer_string v % suc n

  -- A shard whose validators are at home.
  abbrev IsHome : ℕ → Shard → Type 0
  IsHome i s = (v : PeerId) → has_validator v s ≡ true → i ≡ home v

  abbrev AllHome : Shards → Type 0
  AllHome [] = Unit
  AllHome ((i, s) ∷ shards) = IsHome i s × AllHome shards

  pub record IsPlaced (m : ShardManager) : Type 0 where
    pub count : m.shard_count ≡ pos (suc n)
    pub present : (i : ℕ) → i < suc n → is_some (shard_at i m.shards) ≡ true
    pub at_home : AllHome m.shards

  add_validator-IsHome :
      (v : PeerId) (i : ℕ) (s : Shard)
      → i ≡ home v
      → IsHome i s
      → IsHome i (Shard.add_validator v s)
  unfolding Shard.add_validator has_validator
  add_validator-IsHome v i s e h w k =
      ground (arith, e, lookup-insert v w tt s.validators, beq_iff v w, h w)

  remove_validator-IsHome :
      (v : PeerId) (i : ℕ) (s : Shard) → IsHome i s → IsHome i (Shard.remove_validator v s)
  unfolding Shard.remove_validator has_validator
  remove_validator-IsHome v i s h w k = ground (arith, lookup-delete v w s.validators, h w)

  update_at-AllHome :
      (i : ℕ) (f : Shard → Shard) (shards : Shards)
      → ((s : Shard) (j : ℕ) → IsHome j s → j ≡ i → IsHome j (f s))
      → AllHome shards
      → AllHome (update_at i f shards)
  unfolding update_at
  update_at-AllHome i f [] k h = tt
  update_at-AllHome i f ((j, s) ∷ shards) k h =
      let rest = update_at-AllHome i f shards k h.1 in
      elim (Bool-cases (j == i)) [
        | inl e ↦ rw (update_at, e) (k s j h.0 ((==_iff j i).0 e), rest)
        | inr e ↦ rw (update_at, e) (h.0, rest)
      ]

  find_holder-home :
      (v : PeerId) (shards : Shards) (i : ℕ)
      → AllHome shards
      → find_holder v shards ≡ some i
      → i ≡ home v
  unfolding find_holder
  find_holder-home v [] i h e = cc
  find_holder-home v ((j, s) ∷ shards) i h e =
      ground (arith, h.0 v, find_holder-home v shards i h.1)

  clear_all-AllHome : (shards : Shards) → AllHome (clear_all shards)
  unfolding clear_all clear_validators has_validator lookup
  clear_all-AllHome [] = tt
  clear_all-AllHome ((j, s) ∷ shards) = (λ v e. cc, clear_all-AllHome shards)

  make_shards-AllHome : (k i : ℕ) → AllHome (make_shards k i)
  unfolding make_shards new_shard has_validator lookup
  make_shards-AllHome zero i = tt
  make_shards-AllHome (suc k) i = (λ v e. cc, make_shards-AllHome k (suc i))

  shard_at-home :
      (v : PeerId) (i : ℕ) (s : Shard) (shards : Shards)
      → AllHome shards
      → shard_at i shards ≡ some s
      → has_validator v s ≡ true
      → i ≡ home v
  unfolding shard_at
  shard_at-home v i s [] h e k = cc
  shard_at-home v i s ((j, t) ∷ shards) h e k =
      ground (arith, h.0 v, shard_at-home v i s shards h.1)

  some_of : (o : Option Shard) → is_some o ≡ true → (s : Shard) × (o ≡ some s)
  some_of none e = cc
  some_of (some s) e = (s, refl)

  -- Placing a validator succeeds, in its home.
  place-home :
      (v : PeerId) (m : ShardManager)
      → IsPlaced m
      → place hash peer_string v (bucket m.shard_count (hash_validator hash peer_string v)) m
        ≡ (done (home v), record m { shards = update_at (home v) (Shard.add_validator v) m.shards })
  unfolding place put_in bucket
  place-home v m p =
      let (s, there) = some_of (shard_at (home v) m.shards) (p.present (home v) (omega arith)) in
      rw (p.count, bucket, place, put_in, there) refl

  add_at_home :
      (v : PeerId) (m : ShardManager)
      → IsPlaced m
      → IsPlaced (record m { shards = update_at (home v) (Shard.add_validator v) m.shards })
  add_at_home v m p = record {
    count = p.count;
    present = λ i l. shard_at-update_at (home v) i (Shard.add_validator v) m.shards ∙ p.present i l;
    at_home =
        update_at-AllHome (home v) (Shard.add_validator v) m.shards
          (λ s j h e. add_validator-IsHome v j s e h) p.at_home;
  }

  -- Both branches of an assignment answer with the home.
  assign_validator-home :
      (v : PeerId) (m : ShardManager)
      → IsPlaced m
      → ((assign_validator hash peer_string v m).0 ≡ done (home v))
        × IsPlaced (assign_validator hash peer_string v m).1
  unfolding assign_validator
  assign_validator-home v m p = found (find_holder v m.shards) refl
    where
      found :
          (o : Option ℕ)
          → find_holder v m.shards ≡ o
          → let r = elim o as (λ _. Outcome ℕ × ShardManager) [
            | some i ↦ (done i, m)
            | none ↦
                place hash peer_string v
                  (bucket m.shard_count (hash_validator hash peer_string v))
                  m
          ] in
            (r.0 ≡ done (home v)) × IsPlaced r.1
      found (some i) e = (ap done (find_holder-home v m.shards i p.at_home e), p)
      found none e = rw (place-home v m p) (refl, add_at_home v m p)

  remove_validator-IsPlaced :
      (v : PeerId) (m : ShardManager)
      → IsPlaced m
      → IsPlaced (remove_validator hash peer_string v m).1
  unfolding remove_validator
  remove_validator-IsPlaced v m p = found (find_holder v m.shards)
    where
      found :
          (o : Option ℕ)
          → IsPlaced
              (elim o as (λ _. Outcome (Unit {0}) × ShardManager) [
                | none ↦ (failed, m)
                | some i ↦
                    (done tt, record m { shards = update_at i (Shard.remove_validator v) m.shards })
              ]).1
      found none = p
      found (some i) = record {
        count = p.count;
        present = λ j l. shard_at-update_at i j (Shard.remove_validator v) m.shards ∙ p.present j l;
        at_home =
            update_at-AllHome i (Shard.remove_validator v) m.shards
              (λ s j h e. remove_validator-IsHome v j s h) p.at_home;
      }

  -- Reassignment does not panic.
  reassign-IsPlaced :
      (vs : List PeerId) (m : ShardManager)
      → IsPlaced m
      → ((reassign hash peer_string vs m).0 ≡ done tt) × IsPlaced (reassign hash peer_string vs m).1
  unfolding reassign
  reassign-IsPlaced [] m p = (refl, p)
  reassign-IsPlaced (v ∷ vs) m p =
      let next = reassign-IsPlaced vs _ (add_at_home v m p) in
      subst
        (λ r.
          let x = elim r.0 as (λ _. Outcome (Unit {0}) × ShardManager) [
            | done i ↦ reassign hash peer_string vs r.1
            | failed ↦ (failed, r.1)
            | panicked ↦ (panicked, r.1)
          ] in
          (x.0 ≡ done tt) × IsPlaced x.1)
        (sym (place-home v m p)) next

  rebalance_shards-IsPlaced :
      (m : ShardManager)
      → IsPlaced m
      → ((rebalance_shards hash peer_string m).0 ≡ done tt)
        × IsPlaced (rebalance_shards hash peer_string m).1
  unfolding rebalance_shards
  rebalance_shards-IsPlaced m p = reassign-IsPlaced (all_validators m.shards) _ (record {
    count = p.count;
    present = λ i l. shard_at-clear_all i m.shards ∙ p.present i l;
    at_home = clear_all-AllHome m.shards;
  })

  new_shard_manager-IsPlaced : IsPlaced (new_shard_manager (pos (suc n)))
  unfolding new_shard_manager
  new_shard_manager-IsPlaced = record {
    count = refl;
    present = λ i l. shard_at-make_shards (suc n) 0 i (omega arith) (omega arith);
    at_home = make_shards-AllHome (suc n) 0;
  }

  unfoldable pub run : List Event → ShardManager → ShardManager
  run [] m = m
  run (assigns v ∷ es) m = run es (assign_validator hash peer_string v m).1
  run (removes v ∷ es) m = run es (remove_validator hash peer_string v m).1
  run (rebalances ∷ es) m = run es (rebalance_shards hash peer_string m).1

  run-IsPlaced : (es : List Event) (m : ShardManager) → IsPlaced m → IsPlaced (run es m)
  unfolding run
  run-IsPlaced [] m p = p
  run-IsPlaced (assigns v ∷ es) m p = run-IsPlaced es _ (assign_validator-home v m p).1
  run-IsPlaced (removes v ∷ es) m p = run-IsPlaced es _ (remove_validator-IsPlaced v m p)
  run-IsPlaced (rebalances ∷ es) m p = run-IsPlaced es _ (rebalance_shards-IsPlaced m p).1

  -- After any assignments, removals and rebalances of a new manager with at least one shard, a
  -- validator is in no shard but the one that its hash gives; assigning it answers that shard's
  -- number; and rebalancing does not panic.
  pub run-home :
      (es : List Event) (v : PeerId)
      → let m = run es (new_shard_manager (pos (suc n))) in
        ((i : ℕ) (s : Shard) → shard_at i m.shards ≡ some s → has_validator v s ≡ true → i ≡ home v)
        × ((assign_validator hash peer_string v m).0 ≡ done (home v))
        × ((rebalance_shards hash peer_string m).0 ≡ done tt)
  run-home es v =
      let m = run es (new_shard_manager (pos (suc n))) in
      let p = run-IsPlaced es (new_shard_manager (pos (suc n))) new_shard_manager-IsPlaced in
      (
        λ i s e k. shard_at-home v i s m.shards p.at_home e k,
        (assign_validator-home v m p).0,
        (rebalance_shards-IsPlaced m p).0,
      )
