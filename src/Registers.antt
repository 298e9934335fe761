-- ===== src/Registers.antt =====
-- The register tables: growatt_protocol/registers.
pub mod Profiles
pub mod Spec
pub mod Merge
pub mod Override
pub mod Decode
pub mod Values
pub mod Decoded
pub mod Signed
pub mod Slots
pub mod Writable
pub mod Table
pub mod Choice
mod Tests
