-- ===== src/Tunnel/Validity.antt =====
-- The checks of `Journal.Validate` (internal/tunnel/model.go) one by one.
pub mod Entries
pub mod Routes
pub mod Passes
pub mod Total
