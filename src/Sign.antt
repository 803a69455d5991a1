-- ===== src/Sign.antt =====
-- atomefin/sign: the canonical strings that requests are signed over, and the loading of keys.
pub mod Escape
pub mod Canonical
pub mod Keys
