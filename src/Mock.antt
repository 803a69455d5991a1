-- ===== src/Mock.antt =====
-- atomefin/mock: the server that tests run against, with its replay cache.
pub mod Cache
pub mod Server
