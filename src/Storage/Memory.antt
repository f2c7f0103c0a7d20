-- ===== src/Storage/Memory.antt =====
-- A database in memory, its entries in the order of their keys.
use peerdns.Prelude.{
  ◌≡◌, refl, none, some, [], ◌∷◌, arith, if◌then◌else◌, Bytes, beq, beq_iff, beq_refl,
}
use peerdns.Prelude.Map.{Map, lookup, delete, keys, has}
use peerdns.Storage.{Mdbx, IsStore, bytes_less}

-- An entry at its place.
unfoldable pub place : Bytes → Bytes → Map Bytes → Map Bytes
place k v [] = (k, v) ∷ []
place k v ((j, w) ∷ m) =
    let rest = place k v m in
    if beq j k then (k, v) ∷ m else if bytes_less k j then (k, v) ∷ (j, w) ∷ m else (j, w) ∷ rest

abbrev pub memory : Mdbx
memory = record {
  Contents = Map Bytes;
  put = λ s k v. some (place k v s);
  get = λ s k. lookup k s;
  del = λ s k. if has k s then some (delete k s) else none;
  keys = keys;
}

lookup-place :
    (k j v : Bytes) (m : Map Bytes)
    → lookup j (place k v m) ≡ (if beq k j then some v else lookup j m)
unfolding lookup place
lookup-place k j v [] = refl
lookup-place k j v ((i, w) ∷ m) =
    ground (arith, beq_iff k j, beq_iff i k, beq_iff i j, lookup-place k j v m)

pub memory-IsStore : IsStore memory
memory-IsStore = record {
  get-put_self = λ s t k v e. ground (arith, lookup-place k k v s, beq_refl k);
  get-put_ne = λ s t k j v e ne. ground (arith, lookup-place k j v s, beq_iff k j);
}
