-- ===== src/Connection.antt =====
-- The connection commands of the unprivileged program: internal/connection.
pub mod World
pub mod Metadata
pub mod Service
pub mod Recorded
pub mod Saved
pub mod Kept
pub mod Planned
pub mod Commands
mod Tests
