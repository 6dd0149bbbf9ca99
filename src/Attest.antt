-- ===== src/Attest.antt =====
-- internal/attest: the claims of a guest, the challenge key and nonce, and the SPIRE attributes.
pub mod Types
pub mod Nonce
pub mod Claims
pub mod Attributes
