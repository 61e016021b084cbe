-- ===== src/Helper.antt =====
-- The boundary between the command line and the privileged helper (internal/helperproto/protocol.go).
pub mod Protocol
pub mod Frames
pub mod Reads
pub mod Decoded
pub mod Roundtrip
mod Tests
