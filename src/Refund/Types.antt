-- ===== src/Refund/Types.antt =====
-- atomefin/refund/types.go. Integers are int64 patterns; enums and codes are their wire
-- strings, and a free-form object is its members.
use atome_fin_go_sdk.Base.{ℕ, Option, List, Bytes}
use atome_fin_go_sdk.Spec.Json.{Members}
use atome_fin_go_sdk.Repayment.Types.{CommerceAccountChanges}

pub record SubOrderRefundRequest : Type 0 where
  pub sub_order_id : Bytes
  pub merchant_id : Bytes
  pub merchant_name : Bytes
  pub quantity : ℕ
  pub amount : ℕ

pub record RefundExtendInfo : Type 0 where
  pub order_type : Bytes

pub record RefundParam : Type 0 where
  pub request_id : Bytes
  pub external_reference_uid : Bytes
  pub order_id : Bytes
  pub refund_amount : ℕ
  pub sub_orders : List SubOrderRefundRequest
  pub extend_info : Option RefundExtendInfo

pub record SubOrderRefundInfo : Type 0 where
  pub sub_order_id : Bytes
  pub merchant_id : Bytes
  pub merchant_name : Bytes
  pub quantity : ℕ
  pub total_amount : ℕ
  pub principal_amount : ℕ
  pub interest_amount : ℕ
  pub discount_amount : ℕ
  pub overpaid_amount_change : ℕ
  pub extend_info : Members

pub record RefundResult : Type 0 where
  pub request_id : Bytes
  pub capture_request_id : Bytes
  pub refund_id : Bytes
  pub refund_amount : ℕ
  pub waived_interest_amount : ℕ
  pub refund_discount_amount : ℕ
  pub status : Bytes
  pub failure_code : Bytes
  pub currency : Bytes
  pub sub_orders : List SubOrderRefundInfo
  pub account_changes : Option CommerceAccountChanges

pub record RefundResponse : Type 0 where
  pub code : Bytes
  pub message : Bytes
  pub data_ : Option RefundResult
