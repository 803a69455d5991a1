-- ===== src/Bill/Types.antt =====
-- atomefin/bill/types.go. Integers are int64 patterns; enums and codes are their wire
-- strings, and a free-form object is its members.
use atome_fin_go_sdk.Base.{ℕ, Option, List, Bytes}
use atome_fin_go_sdk.Spec.Json.{Members}
use atome_fin_go_sdk.Transaction.Details.{BillDiscounts}

pub record Bill : Type 0 where
  pub bill_id : Bytes
  pub bill_month : Bytes
  pub bill_start_date : Bytes
  pub bill_end_date : Bytes
  pub bill_total_amount : ℕ
  pub outstanding_amount : ℕ
  pub repaid_amount : ℕ
  pub principal_amount : ℕ
  pub interest_amount : ℕ
  pub late_fee_amount : ℕ
  pub refund_amount : ℕ
  pub due_date : Bytes
  pub days_past_due : ℕ
  pub grace_period : ℕ
  pub status : Bytes
  pub refund_status : Bytes
  pub currency : Bytes
  pub repayment_status : Bytes
  pub overdue_status : Bytes
  pub discounts : Option BillDiscounts

pub record BillsResponseItem : Type 0 where
  pub bill : Bill

pub record RepaymentDetail : Type 0 where
  pub repayment_request_id : Bytes
  pub repayment_amount : ℕ
  pub repaid_principal_amount : ℕ
  pub repaid_interest_amount : ℕ
  pub repaid_late_fee_amount : ℕ
  pub repayment_time : ℕ
  pub event : Bytes

pub record BillMainOrder : Type 0 where
  pub order_id : Bytes
  pub request_id : Bytes
  pub merchant_id : Bytes
  pub merchant_name : Bytes
  pub order_type : Bytes
  pub sub_order_id : Bytes
  pub create_time : ℕ
  pub period_type : ℕ
  pub current_period : ℕ
  pub total_amount : ℕ
  pub outstanding_amount : ℕ
  pub repaid_amount : ℕ
  pub principal_amount : ℕ
  pub interest_amount : ℕ
  pub refund_amount : ℕ
  pub grace_period : ℕ
  pub due_date : Bytes
  pub status : Bytes
  pub repayment_status : Bytes
  pub overdue_status : Bytes
  pub refund_status : Bytes
  pub discounts : Option BillDiscounts

pub record Paginator : Type 0 where
  pub start : ℕ
  pub count : ℕ
  pub total_count : ℕ

pub record BillDetail : Type 0 where
  pub currency : Bytes
  pub bill : Option Bill
  pub repayment_details : List RepaymentDetail
  pub main_orders : List BillMainOrder
  pub paginator : Option Paginator
  pub orders : List Members

pub record BillsParams : Type 0 where
  pub external_reference_uid : Bytes
  pub start_month : Bytes
  pub end_month : Bytes
  pub status : List Bytes
  pub repayment_status : List Bytes
  pub overdue_status : List Bytes
  pub refund_status : List Bytes

pub record BillsUnpaidParams : Type 0 where
  pub external_reference_uid : Bytes

pub record BillDetailParams : Type 0 where
  pub bill_id : Bytes
  pub external_reference_uid : Bytes
  pub start : ℕ
  pub count : ℕ

pub record BillsResponse : Type 0 where
  pub code : Bytes
  pub message : Bytes
  pub data_ : List BillsResponseItem

pub record BillDetailResponse : Type 0 where
  pub code : Bytes
  pub message : Bytes
  pub data_ : Option BillDetail

pub record BillUnpaid : Type 0 where
  pub billed_amount_to_be_repaid : ℕ
  pub billed_principal_amount_to_be_repaid : ℕ
  pub billed_interest_amount_to_be_repaid : ℕ
  pub billed_late_fee_amount_to_be_repaid : ℕ
  pub billed_current_bill_id : Bytes
  pub overdue_status : Bytes
  pub days_past_due : ℕ
  pub billed_current_due_date : Bytes
  pub billed_current_bill_date : Bytes
  pub billed_current_start_date : Bytes
  pub billed_current_end_date : Bytes
  pub total_amount_to_be_repaid : ℕ
  pub total_principal_amount_to_be_repaid : ℕ
  pub total_interest_amount_to_be_repaid : ℕ
  pub total_late_fee_amount_to_be_repaid : ℕ

pub record BillUnpaidResponse : Type 0 where
  pub code : Bytes
  pub message : Bytes
  pub data_ : Option BillUnpaid
