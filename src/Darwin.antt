-- ===== src/Darwin.antt =====
-- The changes of a macOS host (internal/darwinnet).
pub mod Conflicts
pub mod Dns
pub mod Network
pub mod Restore
pub mod Undone
pub mod Fields
pub mod Routes
pub mod Masks
pub mod Total
pub mod Table
pub mod Owned
pub mod Free
mod DnsTests
mod FreeTests
mod RouteTests
mod Tests
