-- ===== src/Archive.antt =====
-- build.rs, `main`, which seals the text, and src/main.rs, `main`, which opens it.
pub mod Frame
pub mod Artifacts
pub mod Flow
pub mod Unlock
pub mod Honest
pub mod Roundtrip
pub mod Gate
pub mod Safety
pub mod Passwords
pub mod Buffer
pub mod Memory
pub mod Observe
pub mod Checks
pub mod Checked
mod Toy
mod Tests
mod HostTests
