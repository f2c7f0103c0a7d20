-- ===== src/Routing.antt =====
-- pkg/routing: route entries, their encoding and signatures, and the manager that keeps them.
pub mod Entry
pub mod Manager
pub mod Tests
