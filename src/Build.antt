-- ===== src/Build.antt =====
-- build.rs: the build script that makes the key material and the machine's program.
pub mod Rng
pub mod Random
pub mod Hex
pub mod Program
pub mod Steps
pub mod Recover
pub mod Bytes
pub mod Fill
pub mod Roundtrip
mod Tests
