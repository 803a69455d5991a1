-- ===== src/Callback.antt =====
-- atomefin/callback: callbacks from the gateway, verified before they are handled.
pub mod Verifier
pub mod Handler
