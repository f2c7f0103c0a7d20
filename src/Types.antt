-- ===== src/Types.antt =====
-- pkg/types: hashes, addresses, transactions and blocks.
pub mod Hash
pub mod Address
pub mod Transaction
pub mod Block
pub mod Tests
