-- ===== src/Vm.antt =====
-- src/rustyvm.rs: the RustyVM byte-code machine.
pub mod Select
pub mod Opcodes
pub mod Machine
pub mod Reference
pub mod View
pub mod Slots
pub mod Bounds
pub mod Refinement
pub mod Dispatch
pub mod Run
pub mod Equivalence
pub mod Progress
pub mod Typed
pub mod Underflow
pub mod Reaches
mod Tests
