-- ===== src/Spf.antt =====
-- spf.js: the sender policy of a domain.
pub mod Terms
pub mod Record
pub mod Macros
pub mod Endless
pub mod Mechanisms
pub mod Check
pub mod Ending
pub mod Chain
pub mod Limit
pub mod Bound
pub mod NoPass
pub mod Throws
