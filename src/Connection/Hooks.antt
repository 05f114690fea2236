-- ===== src/Connection/Hooks.antt =====
-- connection.js: what follows the plugins' answers, the `*_respond` handlers.
pub mod Session
pub mod Envelope
pub mod Message
