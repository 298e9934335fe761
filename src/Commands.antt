-- ===== src/Commands.antt =====
-- commands.py: the commands that the server sends, and the replies it gets back.
pub mod Build
pub mod Reply
pub mod Sent
pub mod Answered
mod Tests
