-- ===== src/Encoding.antt =====
-- The text encodings of the Go standard library that the packages use: encoding/base64 and
-- encoding/hex.
pub mod Base64
pub mod Hex
