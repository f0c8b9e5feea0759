-- ===== src/Traversal.antt =====
-- internal/traversal.
pub mod PortRegistry
pub mod Stun
pub mod Natpmp
