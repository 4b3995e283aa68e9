-- ===== src/Tui.antt =====
-- src/tui.rs: how text is measured, wrapped, centred and paged, what is made of the keys, and what is
-- drawn. A string is a list of code points.
pub mod Width
pub mod Wrap
pub mod Pages
pub mod Keys
pub mod Rng
pub mod Screen
pub mod Effects
pub mod Prompts
pub mod Panel
pub mod Burning
pub mod Dialog
pub mod Show
pub mod Reader
pub mod Session
pub mod Pace
pub mod Bounds
pub mod Story
mod Tests
pub mod Toy
mod Drawn
