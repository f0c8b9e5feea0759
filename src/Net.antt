-- ===== src/Net.antt =====
-- The parts of Go's net and net/netip that the program uses.
pub mod Addr
pub mod Prefix
pub mod HostPort
