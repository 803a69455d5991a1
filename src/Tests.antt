-- ===== src/Tests.antt =====
-- The theorems at concrete inputs, and small runs of the definitions.
pub mod Requests
pub mod Signing
pub mod Payments
pub mod Polls
pub mod Messages
pub mod Transactions
pub mod Envelopes
pub mod Replays
pub mod Documents
pub mod Clients
pub mod Servers
pub mod Services
