-- ===== src/SmtpClient.antt =====
-- smtp_client.js and plugins/queue/smtp_forward.js: a message that is forwarded to a backend.
pub mod State
pub mod Listeners
pub mod Lines
pub mod Once
pub mod Delivery
pub mod Clear
