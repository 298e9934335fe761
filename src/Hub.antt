-- ===== src/Hub.antt =====
-- The Home Assistant integration: custom_components/growatt_datalogger.
pub mod Write
pub mod Confirmed
pub mod Misses
pub mod Asked
pub mod Services
pub mod Once
pub mod Choose
pub mod Latest
mod Tests
