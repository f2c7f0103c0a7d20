-- ===== src/Packets.antt =====
-- pkg/packets: the packets that nodes exchange, and their encodings.
pub mod PeerId
pub mod Consensus
pub mod Network
pub mod Route
mod Tests
