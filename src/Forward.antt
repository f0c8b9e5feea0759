-- ===== src/Forward.antt =====
-- internal/forward.
pub mod Budget
