-- ===== src/Accounts/Deletion.antt =====
-- What the store finds of an account that was deleted (pkg/accounts/store.go).
use peerdns.Prelude.{◌≡◌, arith, Bool, true, false, Option, none, some, Bytes, beq_refl}
use peerdns.Prelude.Map.{insert, lookup-insert, lookup-delete}
use peerdns.Types.Hash.{Address}
use peerdns.Types.Address.{zero_address}
use peerdns.Accounts.Account.{Account, new_account}
use peerdns.Accounts.Store.{
  Env, Answer, done, refused, not_found, Store, Generated, find_name, address_of, address_failed,
  save, register, keep_account, create_new, create, get_by_peer_id, get_by_address, delete_account,
}

module _ (env : Env) where
  -- The store is the one before with the account registered.
  record IsRegistered (a : Account) (s s' : Store env.Files) : Type 0 where
    by_peer : s'.by_peer ≡ insert a.peer_id a s.by_peer
    by_address : s'.by_address ≡ insert a.address a s.by_address

  keep_account-IsRegistered :
      (persist : Bool) (a b : Account) (s : Store env.Files)
      → (keep_account env persist a s).0 ≡ done b
      → IsRegistered b s (keep_account env persist a s).1
  unfolding keep_account register save
  keep_account-IsRegistered false a b s e = record {
    by_peer = ground (arith, e);
    by_address = ground (arith, e);
  }
  keep_account-IsRegistered true a b s e = record {
    by_peer = ground (arith, e);
    by_address = ground (arith, e);
  }

  create_new-IsRegistered :
      (name comment : Bytes) (persist : Bool) (g : Option Generated) (a : Account)
      (s : Store env.Files)
      → (create_new env name comment persist g s).0 ≡ done a
      → IsRegistered a s (create_new env name comment persist g s).1
  unfolding create_new
  create_new-IsRegistered name comment persist none a s e = cc
  create_new-IsRegistered name comment persist (some g) a s e = found (address_of env g.signers) e
    where
      made : Address → Account
      made address =
          record (new_account env.peer_string zero_address g.peer_id g.signers name comment) {
            address = address;
          }

      found :
          (o : Option Address)
          → (elim o as (λ _. Answer Account × Store env.Files) [
            | none ↦ (refused address_failed, s)
            | some address ↦ keep_account env persist (made address) s
          ]).0
            ≡ done a
          → IsRegistered a s
              (elim o as (λ _. Answer Account × Store env.Files) [
                | none ↦ (refused address_failed, s)
                | some address ↦ keep_account env persist (made address) s
              ]).1
      found none k = cc
      found (some address) k = keep_account-IsRegistered persist (made address) a s k

  deleted :
      (a : Account) (s s' : Store env.Files)
      → IsRegistered a s s'
      → (get_by_peer_id env a.peer_id (delete_account env a.peer_id s').1 ≡ refused not_found)
        × (get_by_address env a.address (delete_account env a.peer_id s').1 ≡ done a)
  unfolding get_by_peer_id get_by_address delete_account
  deleted a s s' r = (
    ground (
      arith,
      r.by_peer,
      lookup-insert a.peer_id a.peer_id a s.by_peer,
      lookup-delete a.peer_id a.peer_id s'.by_peer,
      beq_refl a.peer_id,
    ),
    ground
        (arith, r.by_address, lookup-insert a.address a.address a s.by_address, beq_refl a.address),
  )

  -- An account that was just created is deleted: its peer is then unknown, and its address still
  -- gives the account.
  pub delete_account-create :
      (name comment : Bytes) (persist : Bool) (g : Option Generated) (a : Account)
      (s : Store env.Files)
      → find_name name s.by_peer ≡ none
      → (create env name comment persist g s).0 ≡ done a
      → let s' = (delete_account env a.peer_id (create env name comment persist g s).1).1 in
        (get_by_peer_id env a.peer_id s' ≡ refused not_found)
        × (get_by_address env a.address s' ≡ done a)
  unfolding create
  delete_account-create name comment persist g a s new e =
      let e' : (create_new env name comment persist g s).0 ≡ done a = rw (create, new) at e in
      rw (create, new)
        (deleted a s (create_new env name comment persist g s).1
          (create_new-IsRegistered name comment persist g a s e'))
