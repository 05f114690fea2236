-- ===== src/Dkim.antt =====
-- dkim.js: the signatures of a message that is read in pieces.
pub mod Canon
pub mod Relaxed
pub mod Object
pub mod Body
pub mod Stream
pub mod Cuts
pub mod Writes
pub mod Verdicts
pub mod Key
pub mod Ending
