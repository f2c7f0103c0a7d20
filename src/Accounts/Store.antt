-- ===== src/Accounts/Store.antt =====
-- pkg/accounts/store.go: the store of accounts, by peer and by address. The files and the keys that
-- are generated are parameters; loading the files is not modelled.
use peerdns.Prelude.{
  Bool, true, false, Option, none, some, List, [], ◌∷◌, if◌then◌else◌, Bytes, beq,
}
use peerdns.Prelude.Map.{Map, lookup, has, insert, delete, values}
use peerdns.Signers.{ed25519_signer_type}
use peerdns.Packets.PeerId.{PeerId}
use peerdns.Types.Hash.{Address}
use peerdns.Types.Address.{zero_address}
use peerdns.Accounts.Account.{KeyedSigner, Account, new_account, compute_address_from_public_key}

pub record Env : Type 1 where
  pub sha256 : Bytes → Bytes
  pub peer_string : PeerId → Bytes
  -- The directory of the store; a call gives `none` where it fails.
  pub Files : Type 0
  pub write : Files → Bytes → Account → Option Files
  pub remove : Files → Bytes → Option Files

pub data StoreError : Type 0 where
  not_found keys_failed address_failed file_failed : StoreError

pub data Answer {ℓ} (A : Type ℓ) : Type ℓ where
  done : A → Answer A
  refused : StoreError → Answer A

-- `keys` and `addresses` hold the same accounts by pointer; here each holds a copy. An account of a
-- store is changed by `Save` alone, which computes its address anew.
pub record Store (F : Type 0) : Type 0 where
  pub by_peer : Map Account
  pub by_address : Map Account
  pub files : F

-- The keys of a new account: its identifier and its signers.
pub record Generated : Type 0 where
  pub peer_id : PeerId
  pub signers : Map KeyedSigner

-- The first account of a name.
unfoldable pub find_name : Bytes → Map Account → Option Account
find_name name [] = none
find_name name ((id, a) ∷ m) =
    let rest = find_name name m in if beq a.name name then some a else rest

module _ (env : Env) where
  open env use {sha256, peer_string}

  -- The address of the Ed25519 signer's key, or the zero address without such a signer.
  unfoldable pub address_of : Map KeyedSigner → Option Address
  address_of signers = elim (lookup ed25519_signer_type signers) [
    | none ↦ some zero_address
    | some k ↦ compute_address_from_public_key sha256 k.public_key
  ]

  -- `Save`: the account gets its address and is written to a file under its text.
  unfoldable pub save : Account → env.Files → Answer Account × env.Files
  save a files = elim (address_of a.signers) [
    | none ↦ (refused address_failed, files)
    | some address ↦ elim (env.write files a.id (record a { address = address })) [
      | none ↦ (refused file_failed, files)
      | some files' ↦ (done (record a { address = address }), files')
    ]
  ]

  -- Both maps gain the account.
  unfoldable pub register : Account → Store env.Files → Store env.Files
  register a s = record s {
    by_peer = insert a.peer_id a s.by_peer;
    by_address = insert a.address a s.by_address;
  }

  -- The end of `Create`: the account is saved if it shall persist, and registered.
  unfoldable pub keep_account : Bool → Account → Store env.Files → Answer Account × Store env.Files
  keep_account false a s = (done a, register a s)
  keep_account true a s =
      let (r, files) = save a s.files in
      elim r [
        | done saved ↦ (done saved, register saved (record s { files = files }))
        | refused e ↦ (refused e, s)
      ]

  -- A new account of keys that were generated.
  unfoldable pub create_new :
      Bytes → Bytes → Bool → Option Generated → Store env.Files → Answer Account × Store env.Files
  create_new name comment persist none s = (refused keys_failed, s)
  create_new name comment persist (some g) s = elim (address_of g.signers) [
    | none ↦ (refused address_failed, s)
    | some address ↦
        keep_account persist
          (record (new_account peer_string zero_address g.peer_id g.signers name comment) {
            address = address;
          })
          s
  ]

  -- `Create`: a name that is taken gives its account.
  unfoldable pub create :
      Bytes → Bytes → Bool → Option Generated → Store env.Files → Answer Account × Store env.Files
  create name comment persist generated s = elim (find_name name s.by_peer) [
    | some a ↦ (done a, s)
    | none ↦ create_new name comment persist generated s
  ]

  -- `GetByPeerID`
  unfoldable pub get_by_peer_id : PeerId → Store env.Files → Answer Account
  get_by_peer_id id s = elim (lookup id s.by_peer) [ none ↦ refused not_found | some a ↦ done a ]

  -- `GetByAddress`
  unfoldable pub get_by_address : Address → Store env.Files → Answer Account
  get_by_address address s = elim (lookup address s.by_address) [
    | none ↦ refused not_found
    | some a ↦ done a
  ]

  -- `List`
  unfoldable pub list : Store env.Files → List Account
  list s = values s.by_peer

  -- `Delete`: the account leaves the map by peer, and then its file is removed.
  unfoldable pub delete_account : PeerId → Store env.Files → Answer (Unit {0}) × Store env.Files
  delete_account id s =
      if has id s.by_peer
      then elim (env.remove s.files (peer_string id)) [
        | none ↦ (refused file_failed, record s { by_peer = delete id s.by_peer })
        | some files ↦ (done tt, record s { by_peer = delete id s.by_peer; files = files })
      ]
      else (refused not_found, s)
