-- ===== src/Timer.antt =====
-- src/timer.js: the operator that claims due schedules and hands their messages to the daemon.
pub mod Schedule
pub mod World
pub mod Occurrence
pub mod Requests
pub mod Actions
pub mod Tick
pub mod Clock
pub mod Advance
pub mod Finish
pub mod Repeat
pub mod InFlight
pub mod Idle
mod Tests
