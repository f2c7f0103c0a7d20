-- ===== src/Storage.antt =====
-- pkg/storage/mdbx.go: the calls of a key-value database that the other packages make. MDBX itself
-- is a parameter: its contents, update transactions, lookups, and the keys that a cursor visits.
pub mod Keys
pub mod Memory
pub mod Manager
pub mod Writer
pub mod Tests
use peerdns.Prelude.{
  ◌≡◌, ◌≢◌, Bool, true, false, Option, none, some, List, [], ◌∷◌, ◌&&◌, ltb, ◌==◌, if◌then◌else◌,
  Bytes, is_some,
}

pub record Mdbx : Type 1 where
  pub Contents : Type 0
  -- `txn.Put` in an update transaction; `none` where it fails.
  pub put : Contents → Bytes → Bytes → Option Contents
  -- `txn.Get` in a view; `none` where the key is not found.
  pub get : Contents → Bytes → Option Bytes
  -- `txn.Del` in an update transaction; `none` where it fails, as for a key that is not found.
  pub del : Contents → Bytes → Option Contents
  -- The keys in the order of a cursor.
  pub keys : Contents → List Bytes

-- What MDBX documents of a put that succeeds.
pub record IsStore (db : Mdbx) : Type 0 where
  pub get-put_self : (s t : db.Contents) (k v : Bytes) → db.put s k v ≡ some t → db.get t k ≡ some v
  pub get-put_ne :
      (s t : db.Contents) (k j v : Bytes) → db.put s k v ≡ some t → k ≢ j → db.get t j ≡ db.get s j

-- The order of keys: bytes from the left, and a prefix before what it begins.
unfoldable pub bytes_less : Bytes → Bytes → Bool
bytes_less [] [] = false
bytes_less [] (y ∷ ys) = true
bytes_less (x ∷ xs) [] = false
bytes_less (x ∷ xs) (y ∷ ys) =
    let rest = bytes_less xs ys in if ltb x y then true else if ltb y x then false else rest

-- `bytes.HasPrefix(key, prefix)`
unfoldable pub has_prefix : Bytes → Bytes → Bool
has_prefix [] key = true
has_prefix (p ∷ prefix) [] = false
has_prefix (p ∷ prefix) (k ∷ key) = (p == k) && has_prefix prefix key

-- `Db.Set`
unfoldable pub set : (db : Mdbx) → db.Contents → Bytes → Bytes → Option db.Contents
set db s key value = db.put s key value

-- `Db.Get`
unfoldable pub get : (db : Mdbx) → db.Contents → Bytes → Option Bytes
get db s key = db.get s key

-- `Db.Exists`
unfoldable pub exists : (db : Mdbx) → db.Contents → Bytes → Bool
exists db s key = is_some (db.get s key)

-- `Db.Delete`
unfoldable pub remove : (db : Mdbx) → db.Contents → Bytes → Option db.Contents
remove db s key = db.del s key

-- The cursor's seek: on to the first key that is not below the prefix.
unfoldable pub seek : Bytes → List Bytes → List Bytes
seek prefix [] = []
seek prefix (k ∷ ks) = let rest = seek prefix ks in if bytes_less k prefix then rest else k ∷ ks

-- The loop over the cursor, until a key without the prefix.
unfoldable pub collect : Bytes → List Bytes → List Bytes
collect prefix [] = []
collect prefix (k ∷ ks) =
    let rest = collect prefix ks in if has_prefix prefix k then k ∷ rest else []

-- `Db.ListKeysWithPrefix`, under a context that is not cancelled.
unfoldable pub list_keys_with_prefix : (db : Mdbx) → db.Contents → Bytes → List Bytes
list_keys_with_prefix db s prefix = collect prefix (seek prefix (db.keys s))
