-- ===== src/Repayment/Types.antt =====
-- atomefin/repayment/types.go. Integers are int64 patterns; enums and codes are their wire
-- strings, and a free-form object is its members.
use atome_fin_go_sdk.Base.{ℕ, Option, Bytes}
use atome_fin_go_sdk.Spec.Json.{Members}

pub record RepaymentParam : Type 0 where
  pub request_id : Bytes
  pub external_reference_uid : Bytes
  pub repayment_amount : ℕ
  pub repayment_apply_time : ℕ
  pub extend_info : Members

pub record CommerceAccountChanges : Type 0 where
  pub external_reference_uid : Bytes
  pub previous_status : Bytes
  pub current_status : Bytes
  pub total_credit_change : ℕ
  pub used_credit_change : ℕ
  pub available_credit_change : ℕ
  pub overpaid_amount_change : ℕ
  pub late_fee_amount_change : ℕ
  pub interest_amount_change : ℕ
  pub version : ℕ

pub record RepaymentResult : Type 0 where
  pub request_id : Bytes
  pub repayment_id : Bytes
  pub status : Bytes
  pub currency : Bytes
  pub repayment_amount : ℕ
  pub repayment_time : ℕ
  pub event : Bytes
  pub account_changes : Option CommerceAccountChanges

pub record RepaymentResponse : Type 0 where
  pub code : Bytes
  pub message : Bytes
  pub data_ : Option RepaymentResult
