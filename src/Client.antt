-- ===== src/Client.antt =====
-- atomefin: the HTTP client, its options, its headers, one attempt of a request, and the retry loop.
pub mod Headers
pub mod Exchange
pub mod Dispatch
pub mod Encrypted
pub mod Config
