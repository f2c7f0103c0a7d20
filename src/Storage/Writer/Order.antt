-- ===== src/Storage/Writer/Order.antt =====
-- The writer against writes that go straight to the database (pkg/storage/writer.go).
use peerdns.Prelude.{
  ℕ, ◌≡◌, refl, sym, ap, ◌∙◌, Option, some, List, [], ◌∷◌, arith, ◌==◌, ==_iff, if◌then◌else◌,
  Bytes, length, beq, beq_iff, Bool-cases, inl, inr,
}
use peerdns.Prelude.Int.{ℤ, pos, leb_ℤ}
use peerdns.Prelude.Map.{Map, lookup, insert, lookup-insert, Distinct, insert-Distinct}
use mathlib.Core.Path.{subst}
use peerdns.Storage.{Mdbx, IsStore}
use peerdns.Storage.Writer.{
  Writer, new_batch_writer, set_at, worker_of, buffer_write, put_all, write_out, flush, take_in,
  receive_from, receive,
}
use peerdns.Storage.Writer.Requests.{
  Event, writes, receives, ticks, last_value, requests, step, run, or_else, last_value-append,
  AllOf, AllOf-append, AllOf-insert, not_of,
}

module _ (db : Mdbx) (law : IsStore db)
    (accepts : (s : db.Contents) (k v : Bytes) → (t : db.Contents) × (db.put s k v ≡ some t)) where
  -- The invariant: a buffer is a map, and each worker has only its own keys.
  record IsSorted (w : Writer db.Contents) : Type 0 where
    distinct : (i : ℕ) → Distinct (w.buffers i)
    queued : (i : ℕ) → AllOf w.workers i (w.queues i)
    buffered : (i : ℕ) → AllOf w.workers i (w.buffers i)

  -- What a reader would see if all that waits were written.
  unfoldable view : Bytes → Writer db.Contents → Option Bytes
  view k w =
      let i = worker_of w.workers k in
      or_else (last_value k (w.queues i)) (or_else (lookup k (w.buffers i)) (db.get w.contents k))

  put_all_lem :
      (m : Map Bytes) (s : db.Contents)
      → Distinct m
      → (t : db.Contents) × (put_all db m s ≡ some t)
        × ((k : Bytes) → db.get t k ≡ or_else (lookup k m) (db.get s k))
  unfolding put_all lookup
  put_all_lem [] s d = (s, refl, λ k. refl)
  put_all_lem ((j, v) ∷ m) s d =
      let (u, put) = accepts s j v in
      let (t, rest, gets) = put_all_lem m u d.1 in
      (
        t,
        rw (put_all, put) rest,
        λ k. gets k ∙ (elim (Bool-cases (beq j k)) [
          | inl e ↦ rw (e, ← ((beq_iff j k).0 e), d.0) (law.get-put_self s u j v put)
          | inr e ↦ rw e (
              ap (or_else (lookup k m))
                (law.get-put_ne s u j k v put (λ q. ground (arith, beq_iff j k, q, e))))
        ]),
      )

  -- A change that no reader sees and that keeps the invariant.
  record IsHidden (w w' : Writer db.Contents) : Type 0 where
    sorted : IsSorted w'
    same_workers : w'.workers ≡ w.workers
    same_view : (k : Bytes) → view k w' ≡ view k w

  emptied : ℕ → db.Contents → Writer db.Contents → Writer db.Contents
  emptied i t w = record w { buffers = set_at i [] w.buffers; contents = t }

  emptied-view :
      (i : ℕ) (t : db.Contents) (w : Writer db.Contents) (k : Bytes)
      → IsSorted w
      → db.get t k ≡ or_else (lookup k (w.buffers i)) (db.get w.contents k)
      → view k (emptied i t w) ≡ view k w
  unfolding view emptied lookup
  emptied-view i t w k s e = elim (Bool-cases (i == worker_of w.workers k)) [
    | inl same ↦ rw (same, e, (==_iff i (worker_of w.workers k)).0 same) refl
    | inr other ↦
        rw
          (
            other,
            e,
            not_of w.workers i k (w.buffers i) (s.buffered i)
                (λ q. ground (arith, ==_iff i (worker_of w.workers k), q, other)),
          )
          refl
  ]

  emptied-IsSorted :
      (i : ℕ) (t : db.Contents) (w : Writer db.Contents) → IsSorted w → IsSorted (emptied i t w)
  unfolding emptied
  emptied-IsSorted i t w s = record {
    distinct = λ j. ground (arith, s.distinct j);
    queued = s.queued;
    buffered = λ j. ground (arith, s.buffered j);
  }

  write_out-IsHidden :
      (i : ℕ) (m : Map Bytes) (w : Writer db.Contents)
      → m ≡ w.buffers i
      → IsSorted w
      → IsHidden w (write_out db i m w)
  unfolding write_out emptied
  write_out-IsHidden i [] w e s = record { sorted = s; same_workers = refl; same_view = λ k. refl }
  write_out-IsHidden i (x ∷ m) w e s =
      let d : Distinct (x ∷ m) = subst Distinct (sym e) (s.distinct i) in
      let (t, put, gets) = put_all_lem (x ∷ m) w.contents d in
      rw (write_out, put)
        (record {
          sorted = emptied-IsSorted i t w s;
          same_workers = refl;
          same_view = λ k. emptied-view i t w k s (rw (← e) (gets k));
        })

  flush-IsHidden : (i : ℕ) (w : Writer db.Contents) → IsSorted w → IsHidden w (flush db i w)
  unfolding flush
  flush-IsHidden i w s = write_out-IsHidden i (w.buffers i) w refl s

  -- A request has gone from the queue to the buffer.
  moved : ℕ → Bytes → Bytes → List (Bytes × Bytes) → Writer db.Contents → Writer db.Contents
  moved i k v rest w = record w {
    queues = set_at i rest w.queues;
    buffers = set_at i (insert k v (w.buffers i)) w.buffers;
  }

  moved-IsHidden :
      (i : ℕ) (k v : Bytes) (rest : List (Bytes × Bytes)) (w : Writer db.Contents)
      → (k, v) ∷ rest ≡ w.queues i
      → IsSorted w
      → IsHidden w (moved i k v rest w)
  unfolding moved view last_value
  moved-IsHidden i k v rest w e s =
      let q : AllOf w.workers i ((k, v) ∷ rest) = subst (AllOf w.workers i) (sym e) (s.queued i) in
      record {
        sorted = record {
          distinct =
              λ j. ground (arith, s.distinct j, insert-Distinct k v (w.buffers i) (s.distinct i));
          queued = λ j. ground (arith, s.queued j, q, ==_iff i j);
          buffered = λ j. ground (
            arith,
            s.buffered j,
            ==_iff i j,
            AllOf-insert w.workers i k v (w.buffers i) (s.buffered i) q.0,
          );
        };
        same_workers = refl;
        same_view = λ j. elim (Bool-cases (i == worker_of w.workers j)) [
          | inl same ↦
              rw (same, ← ((==_iff i (worker_of w.workers j)).0 same), ← e)
                (ground (arith, lookup-insert k j v (w.buffers i)))
          | inr other ↦ rw other refl
        ];
      }

  IsHidden-twice : (a b c : Writer db.Contents) → IsHidden a b → IsHidden b c → IsHidden a c
  IsHidden-twice a b c h k = record {
    sorted = k.sorted;
    same_workers = k.same_workers ∙ h.same_workers;
    same_view = λ j. k.same_view j ∙ h.same_view j;
  }

  receive_from-IsHidden :
      (i : ℕ) (q : List (Bytes × Bytes)) (w : Writer db.Contents)
      → q ≡ w.queues i
      → IsSorted w
      → IsHidden w (receive_from db i q w)
  unfolding receive_from take_in moved
  receive_from-IsHidden i [] w e s = record {
    sorted = s;
    same_workers = refl;
    same_view = λ k. refl;
  }
  receive_from-IsHidden i ((k, v) ∷ rest) w e s =
      let h = moved-IsHidden i k v rest w e s in
      elim (Bool-cases (leb_ℤ w.max_batch_size (pos (length (insert k v (w.buffers i)))))) [
        | inl full ↦ rw full (
            IsHidden-twice w (moved i k v rest w) (flush db i (moved i k v rest w)) h
              (flush-IsHidden i (moved i k v rest w) h.sorted))
        | inr room ↦ rw room h
      ]

  buffer_write-IsSorted :
      (k v : Bytes) (w : Writer db.Contents) → IsSorted w → IsSorted (buffer_write k v w)
  unfolding buffer_write
  buffer_write-IsSorted k v w s = record {
    distinct = s.distinct;
    queued = λ j. ground (
      arith,
      s.queued j,
      ==_iff (worker_of w.workers k) j,
      AllOf-append w.workers (worker_of w.workers k) k v (w.queues (worker_of w.workers k))
          (s.queued (worker_of w.workers k)) refl,
    );
    buffered = s.buffered;
  }

  view-buffer_write :
      (k v j : Bytes) (w : Writer db.Contents)
      → view j (buffer_write k v w) ≡ (if beq k j then some v else view j w)
  unfolding buffer_write view
  view-buffer_write k v j w = ground (
    arith,
    beq_iff k j,
    ==_iff (worker_of w.workers k) (worker_of w.workers j),
    last_value-append j k v (w.queues (worker_of w.workers k)),
  )

  step-IsSorted : (e : Event) (w : Writer db.Contents) → IsSorted w → IsSorted (step db e w)
  unfolding step receive
  step-IsSorted (writes k v) w s = buffer_write-IsSorted k v w s
  step-IsSorted (receives i) w s = (receive_from-IsHidden i (w.queues i) w refl s).sorted
  step-IsSorted (ticks i) w s = (flush-IsHidden i w s).sorted

  view-run :
      (es : List Event) (w : Writer db.Contents) (k : Bytes)
      → IsSorted w
      → view k (run db es w) ≡ or_else (last_value k (requests es)) (view k w)
  unfolding run step requests receive last_value
  view-run [] w k s = refl
  view-run (writes j v ∷ es) w k s =
      let e = view-run es (buffer_write j v w) k (buffer_write-IsSorted j v w s) in
      ground (arith, e, view-buffer_write j v k w)
  view-run (receives i ∷ es) w k s =
      let h = receive_from-IsHidden i (w.queues i) w refl s in
      view-run es (receive db i w) k h.sorted
      ∙ ap (or_else (last_value k (requests es))) (h.same_view k)
  view-run (ticks i ∷ es) w k s =
      let h = flush-IsHidden i w s in
      view-run es (flush db i w) k h.sorted
      ∙ ap (or_else (last_value k (requests es))) (h.same_view k)

  new_batch_writer-IsSorted :
      (s : db.Contents) (max : ℤ) (n : ℕ) → IsSorted (new_batch_writer s max n)
  unfolding new_batch_writer
  new_batch_writer-IsSorted s max n = record {
    distinct = λ i. tt;
    queued = λ i. tt;
    buffered = λ i. tt;
  }

  workers-run :
      (es : List Event) (w : Writer db.Contents) → IsSorted w → (run db es w).workers ≡ w.workers
  unfolding run step receive buffer_write
  workers-run [] w s = refl
  workers-run (writes j v ∷ es) w s =
      workers-run es (buffer_write j v w) (buffer_write-IsSorted j v w s)
  workers-run (receives i ∷ es) w s =
      let h = receive_from-IsHidden i (w.queues i) w refl s in
      workers-run es (receive db i w) h.sorted ∙ h.same_workers
  workers-run (ticks i ∷ es) w s =
      let h = flush-IsHidden i w s in workers-run es (flush db i w) h.sorted ∙ h.same_workers

-- In any order of writes, receiving and flushing, where no put fails: once nothing waits in the
-- queue and the buffer of a key's worker, the database holds the last value that was written for
-- the key, or what it held at first if none was.
pub run-last_value :
    (db : Mdbx) (s : db.Contents) (max : ℤ) (n : ℕ) (es : List Event) (k : Bytes)
    → IsStore db
    → ((t : db.Contents) (j v : Bytes) → (u : db.Contents) × (db.put t j v ≡ some u))
    → (run db es (new_batch_writer s max n)).queues (worker_of n k) ≡ []
    → (run db es (new_batch_writer s max n)).buffers (worker_of n k) ≡ []
    → db.get (run db es (new_batch_writer s max n)).contents k
      ≡ or_else (last_value k (requests es)) (db.get s k)
unfolding view new_batch_writer last_value lookup
run-last_value db s max n es k law accepts no_queue no_buffer =
    let w = new_batch_writer s max n in
    let sorted = new_batch_writer-IsSorted db law accepts s max n in
    let same = workers-run db law accepts es w sorted in
    let e = view-run db law accepts es w k sorted in rw (same, no_queue, no_buffer) at e
