-- ===== src/Accounts/Tests.antt =====
-- An instance of the theorem on deleted accounts (pkg/accounts/store.go).
use peerdns.Prelude.{◌≡◌, refl, true, some, List, [], ◌∷◌, Bytes, beq}
use peerdns.Prelude.Map.{lookup}
use peerdns.Signers.{ed25519_signer_type}
use peerdns.Wire.{replicate_zero}
use peerdns.Consensus.Tests.{toy_signer}
use peerdns.Types.Address.{zero_address}
use peerdns.Accounts.Account.{Account, new_account, compute_address_from_public_key}
use peerdns.Accounts.Store.{
  Env, done, refused, not_found, Store, Generated, create, get_by_peer_id, get_by_address,
  delete_account, find_name, create_new, address_of, keep_account, save, register,
}
use peerdns.Accounts.Deletion.{delete_account-create}

-- The files are the names that were written; the hash is twenty zeros.
abbrev env : Env
env = record {
  sha256 = λ d. replicate_zero 20;
  peer_string = λ id. id;
  Files = List Bytes;
  write = λ files id a. some (id ∷ files);
  remove = λ files id. some files;
}

abbrev generated : Generated
generated = record {
  peer_id = 5 ∷ [];
  signers = (ed25519_signer_type, record { scheme = toy_signer; public_key = 9 ∷ [] }) ∷ [];
}

abbrev account : Account
account = record {
  id = 5 ∷ [];
  address = replicate_zero 20;
  peer_id = 5 ∷ [];
  name = 1 ∷ [];
  signers = generated.signers;
  comment = [];
}

abbrev empty : Store (List Bytes)
empty = record { by_peer = []; by_address = []; files = [] }

created : (create env (1 ∷ []) [] true (some generated) empty).0 ≡ done account
unfolding create find_name create_new address_of keep_account save register lookup beq new_account
    compute_address_from_public_key replicate_zero zero_address
created = refl

delete_account-create_example :
    let s' =
      (delete_account env (5 ∷ []) (create env (1 ∷ []) [] true (some generated) empty).1).1 in
    (get_by_peer_id env (5 ∷ []) s' ≡ refused not_found)
    × (get_by_address env account.address s' ≡ done account)
unfolding find_name
delete_account-create_example =
    delete_account-create env (1 ∷ []) [] true (some generated) account empty refl created
