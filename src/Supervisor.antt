-- ===== src/Supervisor.antt =====
-- src/supervisor.js: the supervisor of the native app and the daemon.
pub mod Machine
pub mod Sound
pub mod Children
pub mod Kept
pub mod Run
mod Tests
