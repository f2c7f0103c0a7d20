-- ===== src/Signers.antt =====
-- pkg/signatures/types.go: the names of the signature schemes and their numbers on the wire; and
-- what the rest of the program asks of a signer.
use peerdns.Prelude.{
  ℕ, ◌^◌, ◌<◌, ◌≡◌, ◌||◌, Bool, true, Option, some, arith, ◌==◌, if◌then◌else◌, Bytes, codes, beq,
  beq_iff,
}

-- A string in the source.
abbrev pub SignerType : Type 0
SignerType = Bytes

abbrev pub bls_signer_type : SignerType
bls_signer_type = codes "bls"

abbrev pub ed25519_signer_type : SignerType
ed25519_signer_type = codes "ed25519"

abbrev pub dleq_signer_type : SignerType
dleq_signer_type = codes "dleq"

abbrev pub unknown_signer_type : SignerType
unknown_signer_type = codes "unknown"

unfoldable pub signer_type_uint32 : SignerType → ℕ
signer_type_uint32 t =
    if beq t bls_signer_type
    then 0
    else if beq t ed25519_signer_type
    then 1
    else if beq t dleq_signer_type
    then 2
    else 0xffff_ffff

unfoldable pub signer_type_from_uint32 : ℕ → SignerType
signer_type_from_uint32 u =
    if u == 0
    then bls_signer_type
    else if u == 1
    then ed25519_signer_type
    else if u == 2
    then dleq_signer_type
    else unknown_signer_type

-- The schemes that have a number of their own.
unfoldable pub is_known : SignerType → Bool
is_known t = beq t bls_signer_type || beq t ed25519_signer_type || beq t dleq_signer_type

-- A scheme with a number survives the wire; every other name arrives as "unknown".
pub signer_type_from_uint32-uint32 :
    (t : SignerType)
    → signer_type_from_uint32 (signer_type_uint32 t)
      ≡ (if is_known t then t else unknown_signer_type)
unfolding signer_type_uint32 signer_type_from_uint32 is_known
signer_type_from_uint32-uint32 t =
    ground
      (arith, beq_iff t bls_signer_type, beq_iff t ed25519_signer_type, beq_iff t dleq_signer_type)

-- The interface signatures.Signer: a signature or an error, and the verdict on one.
pub record Signer : Type 0 where
  pub sign : Bytes → Option Bytes
  pub verify : Bytes → Bytes → Bool

-- What the BLS library documents: its own signatures verify.
abbrev pub IsSound : Signer → Type 0
IsSound s = (data_bytes sig : Bytes) → s.sign data_bytes ≡ some sig → s.verify data_bytes sig ≡ true

pub signer_type_uint32-lt : (t : SignerType) → signer_type_uint32 t < 2 ^ 32
unfolding signer_type_uint32
signer_type_uint32-lt t = ground arith
