-- ===== src/Wire.antt =====
-- internal/wire: the three messages of the exchange, encoded and strictly decoded.
pub mod Decode
pub mod Message
pub mod Challenge
pub mod Response
pub mod Payload
