-- ===== src/Connection/Laws.antt =====
-- What single operations of connection.js do.
pub mod Flow
pub mod Verdicts
pub mod Queue
pub mod RcptOk
