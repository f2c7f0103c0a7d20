-- ===== src/Prelude/Map.antt =====
-- Go's maps with byte-string keys, as association lists. The order of the entries stands for one
-- order in which `range` may visit them.
pub mod Overlap
use Prim.Native.Nat.{suc, ◌≤◌, ◌<◌}
use mathlib.Core.Path.{◌≡◌, refl}
use mathlib.Core.Bool.{Bool, true}
use mathlib.Core.Option.{Option, none, some}
use mathlib.Core.List.{List, [], ◌∷◌, map}
use native.Mathlib.Omega.{arith}
use peerdns.Prelude.Tests.{if◌then◌else◌, is_some}
use peerdns.Prelude.Lists.{length, keep}
use peerdns.Prelude.Octets.{Bytes, beq, beq_iff, beq_refl}

abbrev pub Map {ℓ} : Type ℓ → Type ℓ
Map V = List (Bytes × V)

module _ {ℓ} {V : Type ℓ} where
  -- `m[k]` with the flag.
  unfoldable pub lookup : Bytes → Map V → Option V
  lookup k [] = none
  lookup k ((j, v) ∷ m) = if beq j k then some v else lookup k m

  -- `_, exists := m[k]`
  abbrev pub has : Bytes → Map V → Bool
  has k m = is_some (lookup k m)

  -- `m[k] = v`
  unfoldable pub insert : Bytes → V → Map V → Map V
  insert k v [] = (k, v) ∷ []
  insert k v ((j, w) ∷ m) = if beq j k then (k, v) ∷ m else (j, w) ∷ insert k v m

  -- `delete(m, k)`
  unfoldable pub delete : Bytes → Map V → Map V
  delete k [] = []
  delete k ((j, w) ∷ m) = let rest = delete k m in if beq j k then rest else (j, w) ∷ rest

  abbrev pub keys : Map V → List Bytes
  keys = map (λ e. e.0)

  abbrev pub values : Map V → List V
  values = map (λ e. e.1)

  -- No key twice: what a map of the language is.
  abbrev pub Distinct : Map V → Type ℓ
  Distinct [] = Unit
  Distinct ((k, v) ∷ m) = (lookup k m ≡ none) × Distinct m

  pub lookup-insert :
      (k j : Bytes) (v : V) (m : Map V)
      → lookup j (insert k v m) ≡ (if beq k j then some v else lookup j m)
  unfolding lookup insert
  lookup-insert k j v [] = refl
  lookup-insert k j v ((i, w) ∷ m) =
      ground (arith, beq_iff k j, beq_iff i k, beq_iff i j, lookup-insert k j v m)

  pub lookup-delete :
      (k j : Bytes) (m : Map V) → lookup j (delete k m) ≡ (if beq k j then none else lookup j m)
  unfolding lookup delete
  lookup-delete k j [] = ground arith
  lookup-delete k j ((i, w) ∷ m) =
      ground (arith, beq_iff k j, beq_iff i k, beq_iff i j, lookup-delete k j m)

  pub length-insert :
      (k : Bytes) (v : V) (m : Map V)
      → length (insert k v m) ≡ (if has k m then length m else suc (length m))
  unfolding lookup insert
  length-insert k v [] = refl
  length-insert k v ((i, w) ∷ m) = ground (arith, length-insert k v m)

  pub delete_absent : (k : Bytes) (m : Map V) → lookup k m ≡ none → delete k m ≡ m
  unfolding lookup delete
  delete_absent k [] h = refl
  delete_absent k ((i, w) ∷ m) h = ground (arith, delete_absent k m)

  pub length-delete :
      (k : Bytes) (m : Map V)
      → Distinct m
      → length m ≡ (if has k m then suc (length (delete k m)) else length (delete k m))
  unfolding lookup delete
  length-delete k [] d = refl
  length-delete k ((i, w) ∷ m) d =
      ground (arith, beq_iff i k, length-delete k m d.1, delete_absent k m)

  pub length-delete-le : (k : Bytes) (m : Map V) → length (delete k m) ≤ length m
  unfolding delete
  length-delete-le k [] = omega arith
  length-delete-le k ((i, w) ∷ m) = ground (arith, length-delete-le k m)

  pub insert-Distinct : (k : Bytes) (v : V) (m : Map V) → Distinct m → Distinct (insert k v m)
  unfolding lookup insert
  insert-Distinct k v [] d = (refl, tt)
  insert-Distinct k v ((i, w) ∷ m) d =
      ground (arith, beq_iff i k, beq_iff k i, insert-Distinct k v m d.1, lookup-insert k i v m)

  pub delete-Distinct : (k : Bytes) (m : Map V) → Distinct m → Distinct (delete k m)
  unfolding lookup delete
  delete-Distinct k [] d = tt
  delete-Distinct k ((i, w) ∷ m) d = ground (arith, delete-Distinct k m d.1, lookup-delete k i m)

  pub length-delete_present :
      (k : Bytes) (m : Map V) → has k m ≡ true → length (delete k m) < length m
  unfolding lookup delete
  length-delete_present k [] h = cc
  length-delete_present k ((i, w) ∷ m) h =
      ground (arith, length-delete_present k m, length-delete-le k m)

  -- The entries whose value passes the test: a `range` loop that deletes the others.
  abbrev pub keep_values : (V → Bool) → Map V → Map V
  keep_values p = keep (λ e. p e.1)

  pub lookup-keep_absent :
      (p : V → Bool) (k : Bytes) (m : Map V) → lookup k m ≡ none → lookup k (keep_values p m) ≡ none
  unfolding lookup keep
  lookup-keep_absent p k [] h = refl
  lookup-keep_absent p k ((i, w) ∷ m) h = ground (arith, lookup-keep_absent p k m)

  pub lookup-keep :
      (p : V → Bool) (k : Bytes) (m : Map V)
      → Distinct m
      → lookup k (keep_values p m)
        ≡ elim (lookup k m) [ none ↦ none | some v ↦ if p v then some v else none ]
  unfolding lookup keep
  lookup-keep p k [] d = refl
  lookup-keep p k ((i, w) ∷ m) d =
      ground (arith, beq_iff i k, lookup-keep p k m d.1, lookup-keep_absent p k m)

  pub keep-Distinct : (p : V → Bool) (m : Map V) → Distinct m → Distinct (keep_values p m)
  unfolding keep
  keep-Distinct p [] d = tt
  keep-Distinct p ((i, w) ∷ m) d = ground (arith, keep-Distinct p m d.1, lookup-keep_absent p i m)

  pub has-cons_self : (i : Bytes) (v : V) (m : Map V) → has i ((i, v) ∷ m) ≡ true
  unfolding lookup
  has-cons_self i v m = ground (arith, beq_refl i)

  pub has-cons : (i j : Bytes) (v : V) (m : Map V) → has j m ≡ true → has j ((i, v) ∷ m) ≡ true
  unfolding lookup
  has-cons i j v m h = ground arith

module _ {ℓ κ} {V : Type ℓ} {W : Type κ} where
  has-delete_ne :
      (i j : Bytes) (m : Map V) (b : Map W)
      → lookup i m ≡ none
      → has j m ≡ true
      → has j b ≡ true
      → has j (delete i b) ≡ true
  has-delete_ne i j m b none_i in_m in_b = ground (arith, lookup-delete i j b, beq_iff i j)

  -- A map whose keys all occur in another is no larger than it.
  pub length-le_of_keys :
      (m : Map V) (b : Map W)
      → Distinct m
      → ((k : Bytes) → has k m ≡ true → has k b ≡ true)
      → length m ≤ length b
  length-le_of_keys [] b d sub = omega arith
  length-le_of_keys ((i, v) ∷ m) b d sub = omega (
    arith,
    length-delete_present i b (sub i (has-cons_self i v m)),
    length-le_of_keys m (delete i b) d.1
        (λ j h. has-delete_ne i j m b d.0 h (sub j (has-cons i j v m h))),
  )
