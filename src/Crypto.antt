-- ===== src/Crypto.antt =====
-- src/crypto.rs and its twin in build.rs: key derivation, key wrapping and the shards of the data key.
pub mod Suite
pub mod Wrap
pub mod Hkdf
pub mod Shards
pub mod Flush
mod Tests
