-- ===== src/Security.antt =====
-- internal/security.
pub mod Framecrypto
pub mod Challenge
pub mod Session
