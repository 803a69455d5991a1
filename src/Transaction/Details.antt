-- ===== src/Transaction/Details.antt =====
-- atomefin/transaction/types.go, the response of GET /transactionDetail.
use atome_fin_go_sdk.Base.{ℕ, Option, List, Bytes}
use atome_fin_go_sdk.Transaction.Types.{TradeRefundSubOrder}

pub record BillDiscounts : Type 0 where
  pub discount_amount : ℕ
  pub interest_amount_after_discount : ℕ
  pub bill_total_amount_after_discount : ℕ
  pub repaid_amount_exclude_discount : ℕ

pub record AgreementRef : Type 0 where
  pub agreement_url : Option Bytes

pub record TradeBillDetail : Type 0 where
  pub bill_id : Bytes
  pub bill_date : Bytes
  pub due_date : Bytes
  pub bill_start_date : Bytes
  pub bill_end_date : Bytes
  pub total_amount : ℕ
  pub outstanding_amount : ℕ
  pub repaid_amount : ℕ
  pub principal_amount : ℕ
  pub interest_amount : ℕ
  pub status : Bytes
  pub repayment_status : Bytes
  pub overdue_status : Bytes
  pub discounts : Option BillDiscounts

pub record TradeRefundInfoDetail : Type 0 where
  pub refund_request_id : Bytes
  pub principal_amount : ℕ
  pub discount_amount : ℕ
  pub waived_interest_amount : ℕ
  pub available_credit_change : ℕ
  pub late_fee_amount_change : ℕ
  pub refund_status : Bytes
  pub overpaid_amount_change : ℕ
  pub event : Bytes
  pub create_time : ℕ

pub record TradeSubOrderDetail : Type 0 where
  pub sub_order_id : Bytes
  pub merchant_id : Bytes
  pub merchant_name : Bytes
  pub principal_amount : ℕ
  pub interest_amount : ℕ
  pub discount_amount : ℕ
  pub bill_order_details : List TradeBillDetail
  pub refund_info : List TradeRefundInfoDetail

pub record PaymentTransactionExtendInfo : Type 0 where
  pub agreement : Option AgreementRef

pub record TradePaymentInfoDetail : Type 0 where
  pub capture_request_id : Bytes
  pub order_id : Bytes
  pub order_type : Bytes
  pub total_tenor : ℕ
  pub create_time : ℕ
  pub principal_amount : ℕ
  pub interest_amount : ℕ
  pub discount_amount : ℕ
  pub sub_orders : List TradeSubOrderDetail
  pub extend_info : Option PaymentTransactionExtendInfo

pub record RefundInfoDetail : Type 0 where
  pub refund_request_id : Bytes
  pub payment_request_id : Bytes
  pub refund_amount : ℕ
  pub refund_discount_amount : ℕ
  pub waived_interest_amount : ℕ
  pub late_fee_amount_change : ℕ
  pub available_credit_change : ℕ
  pub overpaid_amount_change : ℕ
  pub refund_type : Bytes
  pub create_time : ℕ
  pub sub_orders : List TradeRefundSubOrder

pub record TradeDetailRepaymentDetail : Type 0 where
  pub bill_id : Bytes
  pub due_date : Bytes
  pub bill_start_date : Bytes
  pub bill_end_date : Bytes
  pub repayment_amount : ℕ
  pub repaid_principal_amount : ℕ
  pub repaid_interest_amount : ℕ

pub record TradeRepaymentInfoDetail : Type 0 where
  pub repayment_request_id : Bytes
  pub repayment_amount : ℕ
  pub overpaid_amount_change : ℕ
  pub late_fee_amount_change : ℕ
  pub event : Bytes
  pub create_time : ℕ
  pub repayment_details : List TradeDetailRepaymentDetail

pub record TradeDetail : Type 0 where
  pub currency : Bytes
  pub payment_info : Option TradePaymentInfoDetail
  pub refund_info : Option RefundInfoDetail
  pub repayment_info : Option TradeRepaymentInfoDetail

pub record TransactionDetailResponse : Type 0 where
  pub code : Bytes
  pub message : Bytes
  pub data_ : Option TradeDetail
