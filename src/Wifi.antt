-- ===== src/Wifi.antt =====
-- cmd_wifi/wifi_known.c: remembered networks, the join that stores them, and reconnection.
pub mod Store
pub mod State
pub mod Events
pub mod Autojoin
pub mod Calls
pub mod Moves
pub mod Drops
pub mod Off
pub mod Joins
pub mod Names
pub mod Forgets
mod Tests
