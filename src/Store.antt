-- ===== src/Store.antt =====
-- The journal files and the lock file of internal/state.
pub mod Info
pub mod Files
pub mod Plain
pub mod Journals
pub mod Contents
pub mod Encoded
pub mod Refines
pub mod Calls
pub mod Load
pub mod Locks
pub mod Held
mod Tests
