-- ===== src/Encrypt.antt =====
-- atomefin/encrypt: the hybrid envelope of the credit-application endpoints.
pub mod Padding
pub mod Body
pub mod Key
pub mod Header
pub mod Envelope
