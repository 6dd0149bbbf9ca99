-- ===== src/Guest.antt =====
-- internal/incus/guest: the agent's client of the guest API.
pub mod Ports
pub mod Failures
pub mod Metadata
pub mod Client
