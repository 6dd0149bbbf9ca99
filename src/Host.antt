-- ===== src/Host.antt =====
-- internal/incus/host: the server's Incus client.
pub mod Snapshot
pub mod Identity
pub mod Retry
pub mod Ports
pub mod Mutate
pub mod Client
