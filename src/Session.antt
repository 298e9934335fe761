-- ===== src/Session.antt =====
-- session.py: the state machine of one connection.
pub mod State
pub mod Correlate
pub mod Handle
pub mod Command
pub mod Quiet
pub mod Replies
pub mod Answers
pub mod Decoding
pub mod Matching
pub mod Numbers
pub mod Late
pub mod Elsewhere
pub mod Exchange
pub mod Ended
mod Tests
