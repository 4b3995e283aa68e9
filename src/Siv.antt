-- ===== src/Siv.antt =====
-- src/serpent_siv.rs: authenticated encryption over the Serpent block cipher and its CMAC.
pub mod Blocks
pub mod Cipher
pub mod Stream
pub mod Authentic
pub mod Counter
pub mod Double
mod Tests
