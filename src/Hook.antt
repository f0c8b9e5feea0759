-- ===== src/Hook.antt =====
-- internal/hook.
pub mod IpCheck
pub mod Queue
