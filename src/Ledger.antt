-- ===== src/Ledger.antt =====
-- pkg/ledger: the balances and nonces that the blocks of the chain leave, and the checks of
-- transactions.
pub mod State
pub mod Graph
pub mod Blocks
pub mod Traversal
pub mod Validation
pub mod Tests
