-- ===== src/Protocol/Domain.antt =====
-- internal/protocol/domain.go: the domain types and their validators.
pub mod Kinds
pub mod Axes
pub mod Fsm
pub mod Spec
