-- ===== src/Errors/Laws.antt =====
-- Which errors ask for another try.
use atome_fin_go_sdk.Base.{◌≡◌, ◌↔◌, true, false, arith}
use atome_fin_go_sdk.Errors.{Cause, is_retryable_transport}

-- A transport failure is worth another try unless it is a cancellation of the caller.
pub is_retryable_transport_iff :
    (c : Cause) → (is_retryable_transport c ≡ true) ↔ (c.canceled ≡ false)
unfolding is_retryable_transport
is_retryable_transport_iff c = ground arith
