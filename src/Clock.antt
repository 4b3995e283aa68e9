-- ===== src/Clock.antt =====
-- The clocks: src/main.rs, the calendar and `consensus`, and src/ntp.rs.
pub mod Calendar
pub mod Count
pub mod Date
pub mod Gregorian
pub mod Ntp
pub mod Consensus
pub mod Servers
pub mod Sorting
pub mod Median
pub mod Arrival
pub mod Report
pub mod Anchor
pub mod Toy
mod Tests
