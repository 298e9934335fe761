-- ===== src/Settings.antt =====
-- Settings: growatt_protocol/settings.py.
pub mod Ranges
pub mod Cover
pub mod Channel
pub mod Write
pub mod Confirm
pub mod Explain
pub mod Bounded
pub mod Device
pub mod Served
pub mod Whole
mod Tests
