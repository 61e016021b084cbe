-- ===== src/Tunnel.antt =====
-- internal/tunnel: the privileged tunnel transaction, its data, its journal and its controller.
pub mod Types
pub mod Plan
pub mod Journal
pub mod Phases
pub mod Panics
pub mod World
pub mod Zero
pub mod Steps
pub mod Rollback
pub mod Connect
pub mod Disconnect
pub mod Validity
pub mod Safety
pub mod Examples
mod Tests
