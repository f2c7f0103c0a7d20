-- ===== src/Storage/Tests.antt =====
-- The database calls and the batch writer at work, and instances of the theorems (pkg/storage).
use peerdns.Prelude.{◌≡◌, refl, List, [], ◌∷◌, Bytes, beq, codes, keep}
use peerdns.Prelude.Int.{pos}
use peerdns.Prelude.Map.{Map, lookup, insert}
use peerdns.Storage.{bytes_less, has_prefix, seek, collect, list_keys_with_prefix}
use peerdns.Storage.Memory.{memory, memory-IsStore, place}
use peerdns.Storage.Keys.{list_keys_with_prefix-keep}
use peerdns.Storage.Writer.{
  new_batch_writer, worker_of, buffer_write, put_all, write_out, flush, take_in, receive_from,
  receive,
}
use peerdns.Storage.Writer.Requests.{
  Event, writes, receives, ticks, last_value, requests, step, run, or_else,
}
use peerdns.Storage.Writer.Order.{run-last_value}

program : Unit {0}
unfolding bytes_less has_prefix seek collect list_keys_with_prefix place worker_of buffer_write
    put_all write_out flush take_in receive_from receive last_value requests step run
    new_batch_writer lookup insert beq keep
program = tt

abbrev shelf : Map Bytes
shelf = (codes "a", []) ∷ (codes "b:1", []) ∷ (codes "b:2", []) ∷ (codes "c", []) ∷ []

finds_prefix : list_keys_with_prefix memory shelf (codes "b:") ≡ codes "b:1" ∷ codes "b:2" ∷ []
unfolding program
finds_prefix = refl

list_keys_with_prefix-keep_example :
    list_keys_with_prefix memory shelf (codes "b:")
    ≡ keep (has_prefix (codes "b:")) (memory.keys shelf)
unfolding program
list_keys_with_prefix-keep_example =
    list_keys_with_prefix-keep memory shelf (codes "b:")
      ((refl, (refl, (refl, tt))), ((refl, (refl, tt)), ((refl, tt), (tt, tt))))

-- Two workers, a flush at two entries; one key is written twice.
abbrev busy : List Event
busy =
    writes (4 ∷ []) (1 ∷ [])
    ∷ writes (5 ∷ []) (2 ∷ [])
    ∷ writes (4 ∷ []) (3 ∷ [])
    ∷ receives 0
    ∷ receives 1
    ∷ receives 0
    ∷ ticks 0
    ∷ []

run-last_value_example :
    memory.get (run memory busy (new_batch_writer [] (pos 2) 2)).contents (4 ∷ [])
    ≡ or_else (last_value (4 ∷ []) (requests busy)) (memory.get [] (4 ∷ []))
unfolding program
run-last_value_example =
    run-last_value memory [] (pos 2) 2 busy (4 ∷ []) memory-IsStore (λ t j v. (place j v t, refl))
      refl refl
