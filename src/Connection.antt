-- ===== src/Connection.antt =====
-- connection.js: one SMTP connection. `Types` has its state, `Reply` the low-level operations,
-- `Commands` the commands of the client, and `Hooks` what follows the plugins' answers.
pub mod Types
pub mod Reply
pub mod Hooks
pub mod Commands
pub mod Words
pub mod Input
pub mod System
pub mod Laws
pub mod Invariant
