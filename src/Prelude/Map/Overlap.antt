-- ===== src/Prelude/Map/Overlap.antt =====
-- How many keys two maps share, where all keys of both lie in a third.
use Prim.Native.Nat.{suc, ◌+◌, ◌≤◌}
use mathlib.Core.Path.{◌≡◌, refl}
use mathlib.Core.Logic.{inl, inr}
use mathlib.Core.Bool.{true}
use mathlib.Core.Option.{none, some}
use mathlib.Core.List.{[], ◌∷◌}
use native.Mathlib.Omega.{arith}
use peerdns.Prelude.Tests.{Option-cases}
use peerdns.Prelude.Lists.{length, keep}
use peerdns.Prelude.Octets.{Bytes, beq_iff}
use peerdns.Prelude.Map.{Map, lookup, has, Distinct, length-le_of_keys, has-cons_self, has-cons}

module _ {ℓ} {V : Type ℓ} where
  -- The entries of the first map whose keys the second has too.
  unfoldable pub common : Map V → Map V → Map V
  common a b = keep (λ e. has e.0 b) a

  common-cons :
      (k : Bytes) (v : V) (m b : Map V)
      → lookup k m ≡ none
      → length (common m ((k, v) ∷ b)) ≡ length (common m b)
  unfolding common keep lookup
  common-cons k v [] b h = refl
  common-cons k v ((j, w) ∷ m) b h = ground (arith, beq_iff j k, beq_iff k j, common-cons k v m b)

  common_new :
      (k : Bytes) (v : V) (m b : Map V)
      → lookup k b ≡ none
      → length (common ((k, v) ∷ m) b) ≡ length (common m b)
  unfolding common keep
  common_new k v m b h = ground arith

  common_old :
      (k : Bytes) (v : V) (m b : Map V) {w : V}
      → lookup k b ≡ some w
      → length (common ((k, v) ∷ m) b) ≡ suc (length (common m b))
  unfolding common keep
  common_old k v m b h = ground arith

module _ {ℓ κ} {V : Type ℓ} {W : Type κ} where
  keys_of_cons :
      (k j : Bytes) (v : V) (b : Map V) (c : Map W)
      → has k c ≡ true
      → (has j b ≡ true → has j c ≡ true)
      → has j ((k, v) ∷ b) ≡ true
      → has j c ≡ true
  unfolding lookup
  keys_of_cons k j v b c here there h = ground (arith, beq_iff k j)

  -- Two maps with their keys in a third share at least as many keys as they hold together beyond
  -- the size of the third.
  pub length-common :
      (a b : Map V) (c : Map W)
      → Distinct a
      → Distinct b
      → ((k : Bytes) → has k a ≡ true → has k c ≡ true)
      → ((k : Bytes) → has k b ≡ true → has k c ≡ true)
      → length a + length b ≤ length c + length (common a b)
  length-common [] b c da db ac bc = omega (arith, length-le_of_keys b c db bc)
  length-common ((k, v) ∷ m) b c da db ac bc = elim (Option-cases (lookup k b)) [
    | inl new ↦
        let rest : length m + length ((k, v) ∷ b) ≤ length c + length (common m ((k, v) ∷ b)) =
          length-common m ((k, v) ∷ b) c da.1 (new, db) (λ j h. ac j (has-cons k j v m h))
            (λ j h. keys_of_cons k j v b c (ac k (has-cons_self k v m)) (bc j) h) in
        omega (arith, rest, common-cons k v m b da.0, common_new k v m b new)
    | inr (w, old) ↦
        let rest : length m + length b ≤ length c + length (common m b) =
          length-common m b c da.1 db (λ j h. ac j (has-cons k j v m h)) bc in
        omega (arith, rest, common_old k v m b old)
  ]
