-- ===== src/Records.antt =====
-- records.py: the frame model, the parser of register groups, and the replies.
pub mod Function
pub mod Frame
pub mod Parse
pub mod Wire
pub mod Ack
mod Tests
