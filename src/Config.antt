-- ===== src/Config.antt =====
-- internal/config: the configuration of the plugins.
pub mod Types
pub mod Validate
pub mod Decode
