-- ===== src/Crypto.antt =====
-- internal/crypto: encodings, padding, tokens and the checks on display fields.
pub mod Base64
pub mod Padding
pub mod Tokens
pub mod Text
pub mod Envelope
pub mod Sealed
mod Tests
pub mod Trim
