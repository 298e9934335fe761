-- ===== src/Server.antt =====
-- server.py: connections, from accepting one to its end.
pub mod Link
pub mod Keeps
pub mod Takeover
pub mod Pumping
pub mod Hushed
pub mod Steps
pub mod Acknowledged
pub mod Stream
mod Tests
