-- ===== src/Validator.antt =====
-- pkg/validator/consensus.go: the consensus module of a validator node.
pub mod Lifecycle
pub mod Module
pub mod Verifying
pub mod Handlers
pub mod Runs
pub mod Duplicates
pub mod Replays
pub mod Safety
pub mod Tests
