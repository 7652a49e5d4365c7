-- ===== src/Crypto.antt =====
-- `src/crypto.rs`: authentication, key agreement, compression and the encryption envelope.
pub mod Primitives
pub mod Envelope
pub mod Handshake
pub mod Roundtrip
