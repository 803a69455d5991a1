-- ===== src/Payment.antt =====
-- atomefin/payment: the requests, their validation before transmission, and the polling loop.
pub mod Types
pub mod Checks
pub mod SubOrders
pub mod Requests
pub mod Polling
