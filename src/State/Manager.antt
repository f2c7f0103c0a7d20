-- ===== src/State/Manager.antt =====
-- pkg/state/state.go: the manager of the records in the database. One call runs at a time.
pub mod History
use peerdns.Prelude.{
  digits, ℕ, zero, suc, ◌+◌, ◌/◌, ◌%◌, Option, none, some, List, [], ◌∷◌, ◌++◌, ltb, if◌then◌else◌,
  Bytes, codes, hex, is_some,
}
use peerdns.Prelude.Int.{ℤ, pos, negsuc}
use peerdns.Storage
use peerdns.Storage.{Mdbx}
use peerdns.State.Decoder.{Decoded, decoded, malformed, panicked, S2}
use peerdns.State.Records.{
  Proposal, Peer, LatencyRecord, Finalization, encode_proposal, decode_proposal, encode_peer,
  decode_peer, encode_latency_record, decode_latency_record, encode_finalization,
  decode_finalization,
}

-- The errors that the methods make by fmt.Errorf.
pub data ManagerError : Type 0 where
  already_exists not_found malformed_data already_removed storage_failure : ManagerError

pub data Answer {ℓ} (A : Type ℓ) : Type ℓ where
  answer : A → Answer A
  refused : ManagerError → Answer A
  crashed : Answer A

-- What the manager is built from: MDBX and the compression library.
pub record Env : Type 1 where
  pub db : Mdbx
  pub s2 : S2

unfoldable pub proposal_key : Bytes → Bytes
proposal_key id = codes "proposal:" ++ id

unfoldable pub peer_key : Bytes → Bytes
peer_key id = codes "peer:" ++ id

unfoldable pub finalization_key : Bytes → Bytes
finalization_key block_hash = codes "finalization:" ++ hex block_hash

-- The verb %d on an int64.
unfoldable pub decimal : ℤ → Bytes
decimal (pos n) = digits 20 n
decimal (negsuc n) = 45 ∷ digits 20 (suc n)

unfoldable pub latency_prefix : Bytes → Bytes
latency_prefix peer_id = codes "latency:" ++ (peer_id ++ codes ":")

unfoldable pub latency_key : LatencyRecord → Bytes
latency_key r = latency_prefix r.peer_id ++ decimal r.timestamp

-- A record or the error for data that does not decode.
abbrev pub as_answer {ℓ} : {A : Type ℓ} → Decoded A → Answer A
as_answer (decoded a) = answer a
as_answer malformed = refused malformed_data
as_answer panicked = crashed

module _ (env : Env) where
  open env use {db, s2}

  unfoldable pub store : Bytes → Bytes → db.Contents → Answer (Unit {0}) × db.Contents
  store key value s = elim (Storage.set db s key value) [
    | none ↦ (refused storage_failure, s)
    | some t ↦ (answer tt, t)
  ]

  -- Under a key that is taken nothing is stored.
  unfoldable pub store_new : Bytes → Bytes → db.Contents → Answer (Unit {0}) × db.Contents
  store_new key value s =
      if Storage.exists db s key then (refused already_exists, s) else store key value s

  -- `db.Get` and a decoder.
  unfoldable pub fetch : {A : Type 0} → (Bytes → Decoded A) → Bytes → db.Contents → Answer A
  fetch decode key s = elim (Storage.get db s key) [
    | none ↦ refused not_found
    | some data_bytes ↦ as_answer (decode data_bytes)
  ]

  -- One key of a listing: what cannot be read or decoded is logged and left out.
  unfoldable pub list_one :
      {A : Type 0} → (Bytes → Decoded A) → Bytes → db.Contents → Answer (List A) → Answer (List A)
  list_one decode key s rest = elim (fetch decode key s) [
    | answer a ↦ elim rest [
      | answer as' ↦ answer (a ∷ as')
      | refused e ↦ refused e
      | crashed ↦ crashed
    ]
    | refused e ↦ rest
    | crashed ↦ crashed
  ]

  unfoldable pub list_all :
      {A : Type 0} → (Bytes → Decoded A) → List Bytes → db.Contents → Answer (List A)
  list_all decode [] s = answer []
  list_all decode (key ∷ keys) s = list_one decode key s (list_all decode keys s)

  -- `AddProposal`
  unfoldable pub add_proposal : Proposal → db.Contents → Answer (Unit {0}) × db.Contents
  add_proposal p = store_new (proposal_key p.id) (encode_proposal s2 p)

  -- `GetProposal`
  unfoldable pub get_proposal : Bytes → db.Contents → Answer Proposal
  get_proposal id = fetch (decode_proposal s2) (proposal_key id)

  -- `ListProposals`
  unfoldable pub list_proposals : db.Contents → Answer (List Proposal)
  list_proposals s =
      list_all (decode_proposal s2) (Storage.list_keys_with_prefix db s (codes "proposal:")) s

  -- `AddPeer`
  unfoldable pub add_peer : Peer → db.Contents → Answer (Unit {0}) × db.Contents
  add_peer p = store_new (peer_key p.id) (encode_peer s2 p)

  -- `GetPeer`
  unfoldable pub get_peer : Bytes → db.Contents → Answer Peer
  get_peer id = fetch (decode_peer s2) (peer_key id)

  -- A peer that was found leaves, once.
  unfoldable pub mark_left :
      Bytes → ℤ → Peer → Option ℤ → db.Contents → Answer (Unit {0}) × db.Contents
  mark_left id left_at p (some t) s = (refused already_removed, s)
  mark_left id left_at p none s =
      store (peer_key id) (encode_peer s2 (record p { left_at = some left_at })) s

  unfoldable pub remove_found :
      Bytes → ℤ → Answer Peer → db.Contents → Answer (Unit {0}) × db.Contents
  remove_found id left_at (answer p) s = mark_left id left_at p p.left_at s
  remove_found id left_at (refused e) s = (refused e, s)
  remove_found id left_at crashed s = (crashed, s)

  -- `RemovePeer`
  unfoldable pub remove_peer : Bytes → ℤ → db.Contents → Answer (Unit {0}) × db.Contents
  remove_peer id left_at s = remove_found id left_at (get_peer id s) s

  -- The peers that are active.
  unfoldable pub active : List Peer → List Peer
  active [] = []
  active (p ∷ ps) = let rest = active ps in if is_some p.left_at then rest else p ∷ rest

  -- `ListPeers`
  unfoldable pub list_peers : db.Contents → Answer (List Peer)
  list_peers s =
      elim (list_all (decode_peer s2) (Storage.list_keys_with_prefix db s (codes "peer:")) s) [
        | answer ps ↦ answer (active ps)
        | refused e ↦ refused e
        | crashed ↦ crashed
      ]

  -- `RecordLatency`
  unfoldable pub record_latency : LatencyRecord → db.Contents → Answer (Unit {0}) × db.Contents
  record_latency r = store (latency_key r) (encode_latency_record s2 r)

  -- `GetLatencyRecords`
  unfoldable pub get_latency_records : Bytes → db.Contents → Answer (List LatencyRecord)
  get_latency_records peer_id s =
      list_all (decode_latency_record s2)
        (Storage.list_keys_with_prefix db s (latency_prefix peer_id)) s

  -- `AddFinalization`
  unfoldable pub add_finalization : Finalization → db.Contents → Answer (Unit {0}) × db.Contents
  add_finalization f = store_new (finalization_key f.block_hash) (encode_finalization s2 f)

  -- `GetFinalization`
  unfoldable pub get_finalization : Bytes → db.Contents → Answer Finalization
  get_finalization block_hash = fetch (decode_finalization s2) (finalization_key block_hash)

  -- `ListFinalizations`
  unfoldable pub list_finalizations : db.Contents → Answer (List Finalization)
  list_finalizations s =
      list_all (decode_finalization s2) (Storage.list_keys_with_prefix db s (codes "finalization:"))
        s
