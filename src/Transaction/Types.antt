-- ===== src/Transaction/Types.antt =====
-- atomefin/transaction/types.go, the parameters and the response of GET /transactions. Integers are
-- int64 patterns; enums and codes are their wire strings.
use atome_fin_go_sdk.Base.{ℕ, Option, List, Bytes}

pub record TradeSubOrder : Type 0 where
  pub sub_order_id : Bytes
  pub merchant_id : Bytes
  pub merchant_name : Bytes
  pub principal_amount : ℕ
  pub interest_amount : ℕ
  pub discount_amount : ℕ

pub record TradeRefundSubOrder : Type 0 where
  pub sub_order_id : Bytes
  pub merchant_id : Bytes
  pub merchant_name : Bytes
  pub refund_status : Bytes
  pub principal_amount : ℕ
  pub waived_interest_amount : ℕ
  pub available_credit_change : ℕ
  pub discount_amount : ℕ
  pub overpaid_amount_change : ℕ

pub record TradeRepaymentDetail : Type 0 where
  pub bill_id : Bytes
  pub due_date : Bytes
  pub bill_start_date : Bytes
  pub bill_end_date : Bytes
  pub repayment_amount : ℕ

pub record TradePaymentInfo : Type 0 where
  pub payment_request_id : Bytes
  pub order_id : Bytes
  pub order_type : Bytes
  pub total_tenor : ℕ
  pub create_time : ℕ
  pub sub_orders : List TradeSubOrder

pub record TradeRefundInfo : Type 0 where
  pub refund_request_id : Bytes
  pub payment_request_id : Bytes
  pub refund_amount : ℕ
  pub refund_discount_amount : ℕ
  pub waived_interest_amount : ℕ
  pub overpaid_amount_change : ℕ
  pub available_credit_change : ℕ
  pub late_fee_amount_change : ℕ
  pub refund_type : Bytes
  pub create_time : ℕ
  pub sub_orders : List TradeRefundSubOrder

pub record TradeRepaymentInfo : Type 0 where
  pub repayment_request_id : Bytes
  pub repayment_amount : ℕ
  pub overpaid_amount_change : ℕ
  pub event : Bytes
  pub create_time : ℕ
  pub repayment_details : List TradeRepaymentDetail

pub record Paginator : Type 0 where
  pub start : ℕ
  pub count : ℕ
  pub total_count : ℕ

pub record TransactionsData : Type 0 where
  pub currency : Bytes
  pub payment_info : List TradePaymentInfo
  pub refund_info : List TradeRefundInfo
  pub repayment_info : List TradeRepaymentInfo
  pub paginator : Option Paginator

pub record TransactionsResponse : Type 0 where
  pub code : Bytes
  pub message : Bytes
  pub data_ : Option TransactionsData

pub record TransactionsParams : Type 0 where
  pub external_reference_uid : Bytes
  pub transaction_type : Bytes
  pub start_date : Bytes
  pub end_date : Bytes
  pub start : ℕ
  pub count : ℕ
