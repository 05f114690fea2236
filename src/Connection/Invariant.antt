-- ===== src/Connection/Invariant.antt =====
-- What holds of a connection between two events, whatever the client sends and the plugins answer.
pub mod Core
pub mod Session
pub mod Envelope
pub mod Message
pub mod Commands
pub mod Data
pub mod Input
pub mod Runs
