-- ===== src/Transport.antt =====
-- atomefin/transport: the retry policy and the user agent.
pub mod Retry
pub mod UserAgent
