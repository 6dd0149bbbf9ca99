-- ===== src/Agent.antt =====
-- internal/agent: the guest's side of an attestation.
pub mod Ports
pub mod Poll
pub mod Service
