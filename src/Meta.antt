-- ===== src/Meta.antt =====
-- The metadata of the archive: the text that build.rs seals with it, and the lines that main.rs makes
-- of it.
pub mod Text
pub mod Record
pub mod Numbers
pub mod Parts
pub mod Roundtrip
pub mod Dates
mod Tests
