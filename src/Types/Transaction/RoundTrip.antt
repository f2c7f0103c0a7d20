-- ===== src/Types/Transaction/RoundTrip.antt =====
-- What a transaction is after it was written and read (pkg/types/transaction.go), and its size.
use mathlib.Core.List.{append_assoc, append-nil}
use peerdns.Prelude.{
  ◌+◌, ◌^◌, ◌<◌, ◌≡◌, refl, ap, sym, ◌∙◌, some, [], ◌∷◌, ◌++◌, arith, Bytes, length, take,
  length-append,
}
use peerdns.Prelude.Int.{to_uint64, IsInt64, to_int64-to_uint64, to_uint64-lt}
use peerdns.Wire.{◌>>=◌, le_bytes, length-le_bytes, read_full-append, read_uint-le_bytes, uint32}
use peerdns.Signers.{signer_type_uint32, signer_type_from_uint32, signer_type_uint32-lt}
use peerdns.Types.Hash.{hash_size, address_size}
use peerdns.Types.Transaction.{
  Transaction, fixed_size, clipped, transaction_bytes, serialize, get_sized, get_transaction,
  deserialize, size,
}

-- The fields are values of their types in the source, and the sizes add up within 32 bits.
pub record IsStorable (tx : Transaction) : Type 0 where
  pub id_size : length tx.id ≡ hash_size
  pub sender_size : length tx.sender ≡ address_size
  pub recipient_size : length tx.recipient ≡ address_size
  pub amount_fits : tx.amount < 2 ^ 64
  pub fee_fits : tx.fee < 2 ^ 64
  pub nonce_fits : tx.nonce < 2 ^ 64
  pub timestamp_fits : IsInt64 tx.timestamp
  pub size_fits : fixed_size + length tx.signature + length tx.payload < 2 ^ 32

-- A signature scheme without a number of its own is unknown.
abbrev pub received_transaction : Transaction → Transaction
received_transaction tx = record tx {
  signature_type = signer_type_from_uint32 (signer_type_uint32 tx.signature_type);
}

take-length : (xs : Bytes) → take (length xs) xs ≡ xs
take-length [] = refl
take-length (x ∷ xs) = ap (◌∷◌ x) (take-length xs)

pub clipped_small : (xs : Bytes) → length xs < 2 ^ 32 → clipped xs ≡ le_bytes 4 (length xs) ++ xs
unfolding clipped
clipped_small xs h =
    let e : uint32 (length xs) ≡ length xs = omega arith in rw (e, take-length xs) refl

pub get_sized-clipped :
    (xs s : Bytes) → length xs < 2 ^ 32 → get_sized (clipped xs ++ s) ≡ some (xs, s)
unfolding get_sized
get_sized-clipped xs s h = rw (
  clipped_small xs h,
  append_assoc (le_bytes 4 (length xs)) xs s,
  read_uint-le_bytes 4 (length xs) (xs ++ s) h,
  ◌>>=◌,
  read_full-append (length xs) xs s refl,
)

pub get_transaction-transaction_bytes :
    (tx : Transaction) (s : Bytes)
    → IsStorable tx
    → get_transaction (transaction_bytes tx ++ s) ≡ some (received_transaction tx, s)
unfolding get_transaction transaction_bytes
get_transaction-transaction_bytes tx s w = simp append_assoc (
    rw (
      read_full-append hash_size tx.id _ w.id_size,
      ◌>>=◌,
      read_full-append address_size tx.sender _ w.sender_size,
      read_full-append address_size tx.recipient _ w.recipient_size,
      read_uint-le_bytes 8 tx.amount _ w.amount_fits,
      read_uint-le_bytes 8 tx.fee _ w.fee_fits,
      read_uint-le_bytes 8 tx.nonce _ w.nonce_fits,
      read_uint-le_bytes 8 (to_uint64 tx.timestamp) _ (to_uint64-lt tx.timestamp),
      read_uint-le_bytes 4 (signer_type_uint32 tx.signature_type) _
          (signer_type_uint32-lt tx.signature_type),
      get_sized-clipped tx.signature _ (omega (arith, w.size_fits)),
      get_sized-clipped tx.payload _ (omega (arith, w.size_fits)),
      to_int64-to_uint64 tx.timestamp w.timestamp_fits,
    ))

pub length-clipped : (xs : Bytes) → length xs < 2 ^ 32 → length (clipped xs) ≡ 4 + length xs
length-clipped xs h =
    rw (clipped_small xs h)
      (omega (arith, length-append (le_bytes 4 (length xs)) xs, length-le_bytes 4 (length xs)))

-- The writer's own count of the bytes.
pub length-transaction_bytes :
    (tx : Transaction)
    → IsStorable tx
    → length (transaction_bytes tx) ≡ fixed_size + length tx.signature + length tx.payload
unfolding transaction_bytes
length-transaction_bytes tx w =
    simp (length-append, length-le_bytes)
      (rw
        (
          length-clipped tx.signature (omega (arith, w.size_fits)),
          length-clipped tx.payload (omega (arith, w.size_fits)),
        )
        (omega (arith, w.id_size, w.sender_size, w.recipient_size)))

pub serialize-transaction_bytes :
    (tx : Transaction) → IsStorable tx → serialize tx ≡ some (transaction_bytes tx)
unfolding serialize
serialize-transaction_bytes tx w = ground (arith, w.size_fits)

pub deserialize-transaction_bytes :
    (tx : Transaction)
    → IsStorable tx
    → deserialize (transaction_bytes tx) ≡ some (received_transaction tx)
unfolding deserialize
deserialize-transaction_bytes tx w =
    let e = get_transaction-transaction_bytes tx [] w in
    let r : get_transaction (transaction_bytes tx) ≡ some (received_transaction tx, []) =
      ap get_transaction (sym (append-nil (transaction_bytes tx))) ∙ e in
    ground (arith, r, length-transaction_bytes tx w)

-- A transaction whose fields are in their ranges and whose sizes add up within 32 bits is written,
-- and what is written is read back as it was, but that a signature scheme without a number of its
-- own arrives as "unknown". `Size` is four bytes less than what is written.
pub deserialize-serialize_transaction :
    (tx : Transaction)
    → IsStorable tx
    → (bytes : Bytes) × (serialize tx ≡ some bytes)
      × (deserialize bytes ≡ some (received_transaction tx))
      × (length bytes ≡ size tx + 4)
unfolding size
deserialize-serialize_transaction tx w = (
  transaction_bytes tx,
  serialize-transaction_bytes tx w,
  deserialize-transaction_bytes tx w,
  omega (arith, length-transaction_bytes tx w),
)
