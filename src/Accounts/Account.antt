-- ===== src/Accounts/Account.antt =====
-- pkg/accounts/account.go and helpers.go: an account, what it signs and its address. The libp2p key
-- pair is left out.
use peerdns.Prelude.{◌-◌, Bool, Option, none, some, ltb, if◌then◌else◌, Bytes, length, drop}
use peerdns.Prelude.Map.{Map, lookup}
use peerdns.Signers.{Signer, SignerType}
use peerdns.Packets.PeerId.{PeerId}
use peerdns.Types.Hash.{Address, address_size}

-- A signer with its public key as bytes.
pub record KeyedSigner : Type 0 where
  pub scheme : Signer
  pub public_key : Bytes

pub record Account : Type 0 where
  pub id : Bytes
  pub address : Address
  pub peer_id : PeerId
  pub name : Bytes
  pub signers : Map KeyedSigner
  pub comment : Bytes

-- `NewAccount`, with the zero address.
unfoldable pub new_account :
    (PeerId → Bytes) → Address → PeerId → Map KeyedSigner → Bytes → Bytes → Account
new_account peer_string zero_address peer_id signers name comment = record {
  id = peer_string peer_id;
  address = zero_address;
  peer_id = peer_id;
  name = name;
  signers = signers;
  comment = comment;
}

-- `Sign`; `none` is an error.
unfoldable pub sign : SignerType → Bytes → Account → Option Bytes
sign t data_bytes a = elim (lookup t a.signers) [ none ↦ none | some k ↦ k.scheme.sign data_bytes ]

-- `Verify`; a scheme's own error counts as a signature that does not verify.
unfoldable pub verify : SignerType → Bytes → Bytes → Account → Option Bool
verify t data_bytes signature a = elim (lookup t a.signers) [
  | none ↦ none
  | some k ↦ some (k.scheme.verify data_bytes signature)
]

-- `computeAddressFromPublicKey`: the last bytes of the hash.
unfoldable pub compute_address_from_public_key : (Bytes → Bytes) → Bytes → Option Address
compute_address_from_public_key sha256 public_key =
    let h = sha256 public_key in
    if ltb (length h) address_size then none else some (drop (length h - address_size) h)
