-- ===== src/Xmodem.antt =====
-- cmd_fs/xmodem.c: XMODEM-CRC and XMODEM-1K.
pub mod Frame
pub mod Receive
pub mod Send
pub mod Transfer
mod Tests
