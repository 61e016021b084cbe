-- ===== src/Tunnel/Safety.antt =====
-- What the controller of internal/tunnel/controller.go may own on the host at a point of the history,
-- and what the journal on disk records there.
pub mod Host
pub mod Lemmas
pub mod Steps
pub mod Release
pub mod Rollback
pub mod Connect
pub mod Locked
pub mod Whole
pub mod Disconnect
pub mod Crash
