-- ===== src/Seccomp.antt =====
-- src/seccomp.rs: the filter that the kernel runs on every system call.
pub mod Filter
pub mod Verdict
mod Tests
