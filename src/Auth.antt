-- ===== src/Auth.antt =====
-- The access token and the exchange of it for credentials (internal/tokeninput, internal/nordauth).
pub mod Token
pub mod Accepted
pub mod Provision
pub mod Trusted
pub mod Returned
mod Tests
