-- ===== src/Storage/Writer/Requests.antt =====
-- Histories of the writer (pkg/storage/writer.go), and the requests that they make.
use peerdns.Prelude.{
  ℕ, ◌≡◌, ◌≢◌, refl, Option, none, some, List, [], ◌∷◌, ◌++◌, arith, if◌then◌else◌, Bytes, beq,
  beq_iff,
}
use peerdns.Prelude.Map.{Map, lookup, insert}
use peerdns.Storage.{Mdbx}
use peerdns.Storage.Writer.{Writer, worker_of, buffer_write, flush, receive}

-- A call of `BufferWrite`, a worker's turn to receive, or a tick of its timer.
pub data Event : Type 0 where
  writes : Bytes → Bytes → Event
  receives : ℕ → Event
  ticks : ℕ → Event

-- The last value for the key in a list of requests.
unfoldable pub last_value : Bytes → List (Bytes × Bytes) → Option Bytes
last_value k [] = none
last_value k ((j, v) ∷ q) = elim (last_value k q) [
  | some w ↦ some w
  | none ↦ if beq j k then some v else none
]

-- The requests of a history.
unfoldable pub requests : List Event → List (Bytes × Bytes)
requests [] = []
requests (writes k v ∷ es) = (k, v) ∷ requests es
requests (receives i ∷ es) = requests es
requests (ticks i ∷ es) = requests es

module _ (db : Mdbx) where
  unfoldable pub step : Event → Writer db.Contents → Writer db.Contents
  step (writes k v) w = buffer_write k v w
  step (receives i) w = receive db i w
  step (ticks i) w = flush db i w

  unfoldable pub run : List Event → Writer db.Contents → Writer db.Contents
  run [] w = w
  run (e ∷ es) w = run es (step e w)

-- The first of two answers.
abbrev pub or_else : Option Bytes → Option Bytes → Option Bytes
or_else (some v) o = some v
or_else none o = o

pub last_value-append :
    (k j v : Bytes) (q : List (Bytes × Bytes))
    → last_value k (q ++ (j, v) ∷ []) ≡ (if beq j k then some v else last_value k q)
unfolding last_value
last_value-append k j v [] = ground arith
last_value-append k j v ((i, u) ∷ q) = ground (arith, last_value-append k j v q)

-- Only keys of the worker.
abbrev pub AllOf : ℕ → ℕ → List (Bytes × Bytes) → Type 0
AllOf n i [] = Unit
AllOf n i ((k, v) ∷ q) = (worker_of n k ≡ i) × AllOf n i q

pub AllOf-append :
    (n i : ℕ) (k v : Bytes) (q : List (Bytes × Bytes))
    → AllOf n i q
    → worker_of n k ≡ i
    → AllOf n i (q ++ (k, v) ∷ [])
AllOf-append n i k v [] a e = (e, tt)
AllOf-append n i k v (r ∷ q) a e = (a.0, AllOf-append n i k v q a.1 e)

pub AllOf-insert :
    (n i : ℕ) (k v : Bytes) (m : Map Bytes)
    → AllOf n i m
    → worker_of n k ≡ i
    → AllOf n i (insert k v m)
unfolding insert
AllOf-insert n i k v [] a e = (e, tt)
AllOf-insert n i k v ((j, w) ∷ m) a e = ground (arith, AllOf-insert n i k v m a.1 e)

pub not_of :
    (n i : ℕ) (k : Bytes) (m : Map Bytes) → AllOf n i m → worker_of n k ≢ i → lookup k m ≡ none
unfolding lookup
not_of n i k [] a ne = refl
not_of n i k ((j, w) ∷ m) a ne = ground (arith, beq_iff j k, not_of n i k m a.1 ne)
