-- ===== src/Persistence.antt =====
-- src/persistence.js: the state store in a file.
pub mod Store
pub mod Reload
mod Tests
