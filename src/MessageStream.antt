-- ===== src/MessageStream.antt =====
-- messagestream.js: the body of a message, kept in memory or spooled to a file, and read back.
pub mod Writer
pub mod Reader
pub mod Written
pub mod Kept
pub mod Pipe
pub mod Complete
pub mod Spool
