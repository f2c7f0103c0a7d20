-- ===== src/Sharding.antt =====
-- pkg/sharding: shards with their validators and data, and the manager that assigns validators.
pub mod Shard
pub mod Manager
pub mod Tests
