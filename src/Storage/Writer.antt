-- ===== src/Storage/Writer.antt =====
-- pkg/storage/writer.go: writes are queued, each worker gathers those for its keys in a buffer, and
-- a buffer is written in one transaction. A queue that is full, which blocks its sender, is not
-- modelled; the goroutines of the workers are steps in any order.
pub mod Requests
pub mod Order
use peerdns.Prelude.{
  ℕ, ◌%◌, ◌≡◌, Bool, Option, none, some, List, [], ◌∷◌, ◌++◌, ◌==◌, if◌then◌else◌, Bytes, length,
}
use peerdns.Prelude.Int.{ℤ, pos, leb_ℤ}
use peerdns.Prelude.Map.{Map, insert}
use peerdns.Storage.{Mdbx}

-- `BatchWriter`, by the number of a worker: what waits in its channel, and its buffer.
pub record Writer (S : Type 0) : Type 0 where
  pub workers : ℕ
  pub max_batch_size : ℤ
  pub queues : ℕ → List (Bytes × Bytes)
  pub buffers : ℕ → Map Bytes
  pub contents : S

-- `NewBatchWriter`
unfoldable pub new_batch_writer : {S : Type 0} → S → ℤ → ℕ → Writer S
new_batch_writer s max_batch_size workers = record {
  workers = workers;
  max_batch_size = max_batch_size;
  queues = λ i. [];
  buffers = λ i. [];
  contents = s;
}

-- One entry of a table changed.
abbrev pub set_at {ℓ} : {A : Type ℓ} → ℕ → A → (ℕ → A) → ℕ → A
set_at i a f j = if i == j then a else f j

-- A key is 32 bytes, of which the first chooses the worker.
unfoldable pub worker_of : ℕ → Bytes → ℕ
worker_of workers [] = 0
worker_of workers (b ∷ key) = b % workers

-- `BufferWrite`
unfoldable pub buffer_write : {S : Type 0} → Bytes → Bytes → Writer S → Writer S
buffer_write key value w =
    let i = worker_of w.workers key in
    record w { queues = set_at i (w.queues i ++ (key, value) ∷ []) w.queues }

module _ (db : Mdbx) where
  -- The puts of one transaction, which fails as a whole.
  unfoldable pub put_all : Map Bytes → db.Contents → Option db.Contents
  put_all [] s = some s
  put_all ((key, value) ∷ m) s = elim (db.put s key value) [ none ↦ none | some t ↦ put_all m t ]

  -- The buffer is cleared whether or not the transaction succeeded.
  unfoldable pub write_out : ℕ → Map Bytes → Writer db.Contents → Writer db.Contents
  write_out i [] w = w
  write_out i (e ∷ m) w = elim (put_all (e ∷ m) w.contents) [
    | none ↦ record w { buffers = set_at i [] w.buffers }
    | some s ↦ record w { buffers = set_at i [] w.buffers; contents = s }
  ]

  -- `flush`
  unfoldable pub flush : ℕ → Writer db.Contents → Writer db.Contents
  flush i w = write_out i (w.buffers i) w

  -- The request enters the buffer, which is flushed when it is large enough.
  unfoldable pub take_in : ℕ → Map Bytes → Writer db.Contents → Writer db.Contents
  take_in i buffer w =
      let w' = record w { buffers = set_at i buffer w.buffers } in
      if leb_ℤ w.max_batch_size (pos (length buffer)) then flush i w' else w'

  -- A worker receives a request from its channel; with none there it waits.
  unfoldable pub receive_from : ℕ → List (Bytes × Bytes) → Writer db.Contents → Writer db.Contents
  receive_from i [] w = w
  receive_from i ((key, value) ∷ rest) w =
      take_in i (insert key value (w.buffers i)) (record w { queues = set_at i rest w.queues })

  unfoldable pub receive : ℕ → Writer db.Contents → Writer db.Contents
  receive i w = receive_from i (w.queues i) w
