-- ===== src/Protocol.antt =====
-- src/protocol.js: the shared vocabulary, the normalisers of hook events, targets, observations
-- and message intents, and the keys by which events are told apart.
pub mod Value
pub mod Names
pub mod Normalize
pub mod Hooks
mod Tests
