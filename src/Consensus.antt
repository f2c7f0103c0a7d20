-- ===== src/Consensus.antt =====
-- pkg/consensus: the SHPoNU protocol. A node's validators, its pool of packets in flight, the state
-- of its proposals, approvals and finalized blocks, and the handlers that move it.
pub mod Effects
pub mod ValidatorSet
pub mod MessagePool
pub mod State
pub mod Node
pub mod Protocol
pub mod Safety
pub mod Tests
