-- ===== src/Nvs.antt =====
-- Configuration backup: exclusions, and the file's text (cmd_nvs/nvs_backup.c).
pub mod Rules
pub mod Strs
pub mod Numbers
pub mod Blobs
pub mod Trailer
pub mod Lines
pub mod Parse
pub mod Store
pub mod Order
pub mod Plan
pub mod Check
pub mod Apply
mod Tests
mod ImportTests
