-- ===== src/Daemon.antt =====
-- src/daemon.js: `HooksDaemon` and the store that it writes.
pub mod Record
pub mod World
pub mod Receipts
pub mod Identity
pub mod EvidenceRules
pub mod Send
pub mod Dispatch
pub mod Hook
pub mod Resume
pub mod Recovery
pub mod Forward
pub mod Frame
pub mod Silent
pub mod Settled
pub mod Gate
pub mod Once
pub mod Outbox
pub mod Keyed
pub mod Cleared
pub mod Steps
pub mod Reachable
pub mod Replay
pub mod Evidence
mod Tests
