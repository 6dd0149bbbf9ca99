-- ===== src/Server.antt =====
-- internal/server: the host side of an attestation.
pub mod Ports
pub mod Cleanup
pub mod Resolve
pub mod Service
