-- ===== src/Host.antt =====
-- What runs beside the archive: src/pass.rs, the entry of a password, src/watchdog.rs, and
-- src/harden.rs, the check for injected code.
pub mod Password
pub mod Watchdog
pub mod Threads
pub mod Lines
pub mod Status
pub mod Harden
pub mod Regions
pub mod Signals
mod Tests
