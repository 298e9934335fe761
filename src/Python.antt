-- ===== src/Python.antt =====
-- What the program uses of Python itself: exceptions, bytes, integers, text and dates.
mod Errors
mod Binary
mod Text
mod Calendar
pub mod Roundtrip
pub mod Names
unfoldable pub use Errors.*
unfoldable pub use Binary.*
unfoldable pub use Text.*
unfoldable pub use Calendar.*
