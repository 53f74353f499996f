-- ===== src/Ota.antt =====
-- The update session that every transport shares (cmd_fs/ota_core.c).
pub mod State
pub mod Session
pub mod Write
pub mod Finish
pub mod Head
pub mod Invariant
pub mod Writing
pub mod Pieces
pub mod Calls
pub mod Ending
pub mod Activate
mod Tests
