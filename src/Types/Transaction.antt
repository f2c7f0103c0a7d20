-- ===== src/Types/Transaction.antt =====
-- pkg/types/transaction.go: the transactions of the chain.
pub mod RoundTrip
use peerdns.Prelude.{
  ℕ, ◌+◌, ◌*◌, ◌^◌, ◌≡◌, Option, none, some, [], ◌++◌, ltb, if◌then◌else◌, Bytes, length, take,
}
use peerdns.Prelude.Int.{ℤ, to_uint64, to_int64}
use peerdns.Wire.{Parser, ◌>>=◌, pure, le_bytes, read_full, read_uint, uint32}
use peerdns.Signers.{SignerType, signer_type_uint32, signer_type_from_uint32}
use peerdns.Types.Hash.{Hash, Address, hash_size, address_size, zero_hash}

-- `amount`, `fee` and `nonce` are a uint64, `timestamp` is an int64.
pub record Transaction : Type 0 where
  pub id : Hash
  pub sender : Address
  pub recipient : Address
  pub amount : ℕ
  pub fee : ℕ
  pub nonce : ℕ
  pub timestamp : ℤ
  pub signature : Bytes
  pub signature_type : SignerType
  pub payload : Bytes

-- A uint64 in eight bytes.
abbrev pub put_uint64 : ℕ → Bytes
put_uint64 n = le_bytes 8 n

-- What `ComputeHash` feeds to the hash function.
unfoldable pub hash_contents : Transaction → Bytes
hash_contents tx =
    tx.sender
    ++ (tx.recipient
        ++ (put_uint64 tx.amount
            ++ (put_uint64 tx.fee
                ++ (put_uint64 tx.nonce ++ (put_uint64 (to_uint64 tx.timestamp) ++ tx.payload)))))

-- `ComputeHash`, with SHA-256 as a parameter.
unfoldable pub compute_hash : (Bytes → Hash) → Transaction → Hash
compute_hash sha256 tx = sha256 (hash_contents tx)

-- `NewTransaction` at a time of the clock, in seconds.
unfoldable pub new_transaction :
    (Bytes → Hash) → ℤ → Address → Address → ℕ → ℕ → ℕ → Bytes → Transaction
new_transaction sha256 now sender recipient amount fee nonce payload =
    let tx : Transaction = record {
      id = zero_hash;
      sender = sender;
      recipient = recipient;
      amount = amount;
      fee = fee;
      nonce = nonce;
      timestamp = now;
      signature = [];
      signature_type = [];
      payload = payload;
    } in
    record tx { id = compute_hash sha256 tx }

-- The bytes before the signature's and the payload's own, with the two lengths.
abbrev pub fixed_size : ℕ
fixed_size = hash_size + address_size * 2 + 8 * 4 + 4 + 4 + 4

-- A length and the bytes that it covers: the length is cut to 32 bits.
unfoldable pub clipped : Bytes → Bytes
clipped xs = le_bytes 4 (uint32 (length xs)) ++ take (uint32 (length xs)) xs

unfoldable pub transaction_bytes : Transaction → Bytes
transaction_bytes tx =
    tx.id
    ++ (tx.sender
        ++ (tx.recipient
            ++ (put_uint64 tx.amount
                ++ (put_uint64 tx.fee
                    ++ (put_uint64 tx.nonce
                        ++ (put_uint64 (to_uint64 tx.timestamp)
                            ++ (le_bytes 4 (signer_type_uint32 tx.signature_type)
                                ++ (clipped tx.signature ++ clipped tx.payload))))))))

-- `Transaction.Serialize`. The size of the buffer is a uint32: where the sum passes 32 bits the
-- buffer is too small and a slice of it panics, which is `none`.
unfoldable pub serialize : Transaction → Option Bytes
serialize tx =
    if ltb (fixed_size + uint32 (length tx.signature) + uint32 (length tx.payload)) (2 ^ 32)
    then some (transaction_bytes tx)
    else none

-- A length, and as many bytes.
unfoldable pub get_sized : Parser Bytes
get_sized = do n ← read_uint 4; read_full n

unfoldable pub get_transaction : Parser Transaction
get_transaction = do
  id ← read_full hash_size
  sender ← read_full address_size
  recipient ← read_full address_size
  amount ← read_uint 8
  fee ← read_uint 8
  nonce ← read_uint 8
  timestamp ← read_uint 8
  signature_type ← read_uint 4
  signature ← get_sized
  payload ← get_sized
  pure (record {
    id = id;
    sender = sender;
    recipient = recipient;
    amount = amount;
    fee = fee;
    nonce = nonce;
    timestamp = to_int64 timestamp;
    signature = signature;
    signature_type = signer_type_from_uint32 signature_type;
    payload = payload;
  })

-- `DeserializeTransaction`: what is left over is ignored.
unfoldable pub deserialize : Bytes → Option Transaction
deserialize bytes =
    if ltb (length bytes) fixed_size
    then none
    else elim (get_transaction bytes) [ none ↦ none | some (tx, rest) ↦ some tx ]

-- `Transaction.Size`
unfoldable pub size : Transaction → ℕ
size tx = hash_size + address_size * 2 + 8 * 4 + 4 + length tx.signature + 4 + length tx.payload
