-- ===== src/Storage/Keys.antt =====
-- Which keys a search for a prefix finds (pkg/storage/mdbx.go).
use peerdns.Prelude.{
  ◌≡◌, refl, ap, true, false, List, [], ◌∷◌, arith, Bytes, Bool-cases, inl, inr, keep,
}
use peerdns.Storage.{Mdbx, bytes_less, has_prefix, seek, collect, list_keys_with_prefix}

-- Every key of the list comes after the one given.
abbrev pub AllAfter : Bytes → List Bytes → Type 0
AllAfter k [] = Unit
AllAfter k (j ∷ js) = (bytes_less k j ≡ true) × AllAfter k js

-- Keys in ascending order, as a cursor of MDBX visits them.
abbrev pub Ascending : List Bytes → Type 0
Ascending [] = Unit
Ascending (k ∷ ks) = AllAfter k ks × Ascending ks

-- A key with the prefix does not come before the prefix.
prefixed_not_less : (p k : Bytes) → has_prefix p k ≡ true → bytes_less k p ≡ false
unfolding bytes_less has_prefix
prefixed_not_less [] [] h = refl
prefixed_not_less [] (x ∷ k) h = refl
prefixed_not_less (y ∷ p) [] h = cc
prefixed_not_less (y ∷ p) (x ∷ k) h = ground (arith, prefixed_not_less p k)

-- Between the prefix and a key with it, all keys have it.
prefixed_between :
    (p k j : Bytes)
    → bytes_less k p ≡ false
    → bytes_less k j ≡ true
    → has_prefix p j ≡ true
    → has_prefix p k ≡ true
unfolding bytes_less has_prefix
prefixed_between [] k j a b h = refl
prefixed_between (x ∷ p) [] j a b h = cc
prefixed_between (x ∷ p) (y ∷ k) [] a b h = cc
prefixed_between (x ∷ p) (y ∷ k) (z ∷ j) a b h = ground (arith, prefixed_between p k j)

bytes_less_trans :
    (a b c : Bytes) → bytes_less a b ≡ true → bytes_less b c ≡ true → bytes_less a c ≡ true
unfolding bytes_less
bytes_less_trans [] [] c h k = cc
bytes_less_trans [] (y ∷ b) [] h k = cc
bytes_less_trans [] (y ∷ b) (z ∷ c) h k = refl
bytes_less_trans (x ∷ a) [] c h k = cc
bytes_less_trans (x ∷ a) (y ∷ b) [] h k = cc
bytes_less_trans (x ∷ a) (y ∷ b) (z ∷ c) h k = ground (arith, bytes_less_trans a b c)

-- A key not below the prefix that lacks it ends the range.
none_after :
    (p k : Bytes) (ks : List Bytes)
    → bytes_less k p ≡ false
    → has_prefix p k ≡ false
    → AllAfter k ks
    → keep (has_prefix p) ks ≡ []
unfolding keep
none_after p k [] a b h = refl
none_after p k (j ∷ js) a b h = ground (arith, prefixed_between p k j, none_after p k js a b h.1)

collect-keep :
    (p k : Bytes) (ks : List Bytes)
    → bytes_less k p ≡ false
    → AllAfter k ks
    → Ascending ks
    → collect p (k ∷ ks) ≡ keep (has_prefix p) (k ∷ ks)
unfolding collect keep
collect-keep p k [] a b h = ground arith
collect-keep p k (j ∷ js) a b h = elim (Bool-cases (has_prefix p k)) [
  | inr out ↦ rw (out, keep, none_after p k (j ∷ js) a out b) refl
  | inl in_range ↦
      rw (in_range, keep)
        (ap (◌∷◌ k) (collect-keep p j js (ground (arith, a, b.0, bytes_less_trans k j p)) h.0 h.1))
]

collect-seek :
    (p : Bytes) (ks : List Bytes) → Ascending ks → collect p (seek p ks) ≡ keep (has_prefix p) ks
unfolding seek keep collect
collect-seek p [] a = refl
collect-seek p (k ∷ ks) a = elim (Bool-cases (bytes_less k p)) [
  | inl below ↦
      let no : has_prefix p k ≡ false = ground (arith, below, prefixed_not_less p k) in
      rw (below, keep, no) (collect-seek p ks a.1)
  | inr ge ↦ rw ge (collect-keep p k ks ge a.0 a.1)
]

-- A search for a prefix finds all keys that have it, and no others, in the order of the keys: the
-- keys are ascending.
pub list_keys_with_prefix-keep :
    (db : Mdbx) (s : db.Contents) (prefix : Bytes)
    → Ascending (db.keys s)
    → list_keys_with_prefix db s prefix ≡ keep (has_prefix prefix) (db.keys s)
unfolding list_keys_with_prefix
list_keys_with_prefix-keep db s prefix a = collect-seek prefix (db.keys s) a
