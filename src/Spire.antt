-- ===== src/Spire.antt =====
-- internal/spire: the plugins around the services.
pub mod Codes
pub mod Requests
pub mod Ports
pub mod Build
pub mod ServerPlugin
pub mod AgentPlugin
pub mod Exchange
pub mod Attestation
