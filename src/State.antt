-- ===== src/State.antt =====
-- pkg/state: records of proposals, peers, latencies and finalizations, kept in the database.
pub mod Decoder
pub mod Records
pub mod Manager
pub mod Tests
