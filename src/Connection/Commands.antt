-- ===== src/Connection/Commands.antt =====
-- connection.js: the commands of the client, the `cmd_*` methods, and the data of a message.
pub mod Session
pub mod Envelope
pub mod Body
