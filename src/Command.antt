-- ===== src/Command.antt =====
-- The command line of internal/command.
pub mod Arguments
pub mod Run
pub mod Written
pub mod Codes
pub mod Asked
pub mod Allowed
pub mod Dispatch
pub mod Parsed
mod Tests
