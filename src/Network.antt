-- ===== src/Network.antt =====
-- src/Network: decoding, deadlines, heartbeats and redaction.
pub mod Gzip
pub mod WsDeadline
pub mod WsApplication
pub mod Redaction
pub mod WsClient
pub mod HttpSession
