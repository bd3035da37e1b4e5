-- ===== src/Runtime.antt =====
-- src/orchestrator.js: the runtime that loads the daemon's plugins.
pub mod Machine
pub mod Rest
mod Tests
