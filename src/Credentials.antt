-- ===== src/Credentials.antt =====
-- The stored credential pair: logging in and logging out (internal/loginflow, internal/authstate).
pub mod Store
pub mod Login
pub mod Logout
pub mod Held
pub mod Safety
pub mod Provisioned
mod Tests
