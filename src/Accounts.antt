-- ===== src/Accounts.antt =====
-- pkg/accounts: accounts with their signers, and the store that keeps them.
pub mod Account
pub mod Store
pub mod Deletion
pub mod Tests
