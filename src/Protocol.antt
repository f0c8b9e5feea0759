-- ===== src/Protocol.antt =====
-- internal/protocol.
pub mod Fields
pub mod Enrollment
pub mod Envelope
pub mod Endpoint
pub mod Domain
pub mod Probe
