-- ===== src/Devices.antt =====
-- The WireGuard backend: internal/wgbackend.
pub mod Secrets
pub mod Manager
pub mod Owned
pub mod Runs
pub mod Once
mod Tests
