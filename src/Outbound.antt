-- ===== src/Outbound.antt =====
-- outbound.js: the queue of the mails that go out.
pub mod Names
pub mod NameRoundTrip
pub mod Todo
pub mod TodoRoundTrip
pub mod Extensions
pub mod Shake
pub mod Handshake
pub mod Secrets
pub mod BehindTls
pub mod Client
pub mod Recipients
pub mod Conversation
pub mod Whole
pub mod LateReply
pub mod Lmtp
pub mod Item
pub mod Retries
pub mod Hosts
pub mod HostOrder
pub mod Sending
pub mod Domains
