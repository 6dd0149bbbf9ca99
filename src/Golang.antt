-- ===== src/Golang.antt =====
-- What the program uses of Go's standard library.
pub mod Hex
pub mod Slices
pub mod Maps
pub mod Base64
pub mod Json
pub mod Utf8
pub mod Context
pub mod Text
