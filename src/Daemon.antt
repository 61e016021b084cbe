-- ===== src/Daemon.antt =====
-- The privileged helper: internal/helperdaemon.
pub mod World
pub mod Files
pub mod Verify
pub mod Handle
pub mod Serve
pub mod Calm
pub mod Settled
pub mod Ended
pub mod Health
pub mod Answers
pub mod Responses
mod Tests
