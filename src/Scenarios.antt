-- ===== src/Scenarios.antt =====
-- Concrete cases of the theorems.
mod Probe
mod Domain
mod Stun
mod Resources
mod Natpmp
mod Transcripts
mod Queue
