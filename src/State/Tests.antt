-- ===== src/State/Tests.antt =====
-- The manager of records at work, and instances of the theorems (pkg/state).
use peerdns.Prelude.{
  digits, ◌≡◌, refl, none, some, List, [], ◌∷◌, arith, Bytes, beq, codes, hex, hex_digit,
}
use peerdns.Prelude.Int.{pos}
use peerdns.Prelude.Map.{Map, lookup}
use peerdns.Wire.{
  le_bytes, from_le, sized, read_uint, read_full, reader_read, padded, replicate_zero,
}
use peerdns.Storage
use peerdns.Storage.Memory.{memory, memory-IsStore, place}
use peerdns.State.Decoder.{S2, decode_with, get_bytes, read_slice, get_int64}
use peerdns.State.Records
use peerdns.State.Records.{Proposal, Peer, LatencyRecord, Finalization}
use peerdns.State.Manager
use peerdns.State.Manager.{Env, answer, refused, already_exists}
use peerdns.State.Manager.History.{
  Call, adds_proposal, adds_peer, removes_peer, perform, perform_all, get_proposal-add_proposal,
  get_peer-remove_peer,
}

-- Data behind a mark in place of compressed data.
abbrev plain : S2
plain = record { encode = λ b. 255 ∷ b; decode = λ b. elim b [ [] ↦ none | x ∷ rest ↦ some rest ] }

abbrev env : Env
env = record { db = memory; s2 = plain }

program : Unit {0}
unfolding Manager.store Manager.store_new Manager.fetch Manager.add_proposal Manager.get_proposal
    Manager.add_peer Manager.get_peer Manager.mark_left Manager.remove_found Manager.remove_peer
    Manager.record_latency Manager.add_finalization Manager.proposal_key Manager.peer_key
    Manager.latency_key Manager.latency_prefix Manager.decimal digits Manager.finalization_key
    Records.encode_proposal Records.decode_proposal Records.encode_peer Records.decode_peer
    Records.proposal_bytes Records.peer_bytes Records.get_proposal Records.get_peer
    Records.put_left_at Records.get_left_at Records.get_time decode_with get_bytes read_slice
    get_int64 le_bytes from_le sized read_uint read_full reader_read padded replicate_zero
    Storage.set Storage.get Storage.exists Storage.bytes_less place lookup beq perform perform_all
    hex hex_digit
program = tt

abbrev proposal : Proposal
proposal = record { id = codes "p1"; block_hash = 1 ∷ 2 ∷ []; content = 3 ∷ []; timestamp = pos 50 }

abbrev peer : Peer
peer = record { id = codes "a"; address = codes "host"; joined_at = pos 7; left_at = none }

abbrev again : Proposal
again = record proposal { content = 9 ∷ [] }

abbrev later : List Call
later = adds_proposal again ∷ adds_peer peer ∷ removes_peer (codes "a") (pos 99) ∷ []

added_twice :
    (Manager.add_proposal env again (Manager.add_proposal env proposal []).1).0
    ≡ refused already_exists
unfolding program
added_twice = refl

get_proposal-add_proposal_example :
    Manager.get_proposal env
      (codes "p1")
      (perform_all env later (Manager.add_proposal env proposal []).1)
    ≡ answer proposal
unfolding program
get_proposal-add_proposal_example =
    get_proposal-add_proposal env proposal later [] memory-IsStore (λ b. refl) (omega arith) refl

abbrev joined : Map Bytes
joined = (codes "peer:a", Records.encode_peer plain peer) ∷ []

get_peer-remove_peer_example :
    Manager.get_peer env
      (codes "a")
      (perform_all env later (Manager.remove_peer env (codes "a") (pos 60) joined).1)
    ≡ answer (record peer { left_at = some (pos 60) })
unfolding program
get_peer-remove_peer_example =
    get_peer-remove_peer env (codes "a") (pos 60) peer later joined memory-IsStore (λ b. refl)
      (omega arith) (omega arith) refl refl
