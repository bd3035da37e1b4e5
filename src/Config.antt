-- ===== src/Config.antt =====
-- src/endpoint.js and src/config.js: where the daemon listens, and the checks of its configuration.
pub mod Endpoint
pub mod Validate
pub mod Daemon
pub mod Accepted
mod Tests
