-- ===== src/Credit/Responses.antt =====
-- atomefin/credit/types.go, the responses. Integers are int64 patterns; enums and codes are their wire
-- strings, and a free-form object is its members.
use atome_fin_go_sdk.Base.{ℕ, Option, List, Bytes}
use atome_fin_go_sdk.Spec.Json.{Members}

pub record QueryUserTagResult : Type 0 where
  pub user_tag : Bytes
  pub user_status : Bytes
  pub extend_info : Members

pub record QueryUserTagResponse : Type 0 where
  pub code : Bytes
  pub message : Bytes
  pub data_ : Option QueryUserTagResult

pub record CreditInformationResult : Type 0 where
  pub request_id : Bytes
  pub external_reference_uid : Bytes
  pub status : Bytes
  pub jump_url : Bytes
  pub fail_reason : Bytes
  pub extend_info : Members

pub record CreditInformationResponse : Type 0 where
  pub code : Bytes
  pub message : Bytes
  pub data_ : Option CreditInformationResult

pub record CreditInfo : Type 0 where
  pub total_credit : ℕ
  pub available_credit : ℕ
  pub used_credit : ℕ
  pub late_fee_amount : ℕ
  pub overpaid_amount : ℕ
  pub overpaid_withdraw_amount : ℕ
  pub overpaid_withdraw_link : Bytes
  pub user_status : Bytes
  pub version : ℕ

pub record LoanCreditInfo : Type 0 where
  pub loan_status : Bytes
  pub reapply_time : ℕ

pub record CreditApplicationResult : Type 0 where
  pub external_reference_uid : Bytes
  pub status : Bytes
  pub reapply_time : ℕ
  pub fail_reason : List Bytes
  pub currency : Bytes
  pub credit_info : Option CreditInfo
  pub loan_credit_info : Option LoanCreditInfo
  pub bill_day : ℕ
  pub pay_day : ℕ
  pub extend_info : Members

pub record CreditApplicationResponse : Type 0 where
  pub code : Bytes
  pub message : Bytes
  pub data_ : Option CreditApplicationResult

pub record CreditApplicationCollectQueryResult : Type 0 where
  pub request_id : Bytes
  pub external_reference_uid : Bytes
  pub status : Bytes
  pub fail_reason : Bytes
  pub extend_info : Members

pub record CreditInformationCollectResponse : Type 0 where
  pub code : Bytes
  pub message : Bytes
  pub data_ : Option CreditApplicationCollectQueryResult

pub record RecordInfo : Type 0 where
  pub request_id : Bytes
  pub change_amount : Bytes
  pub event : Bytes
  pub valid_til : ℕ
  pub time : ℕ

pub record Paginator : Type 0 where
  pub start : ℕ
  pub count : ℕ
  pub total_count : ℕ

pub record CreditChangeHistoryResponse : Type 0 where
  pub external_reference_uid : Bytes
  pub kind : Bytes
  pub currency : Bytes
  pub record_info : List RecordInfo
  pub paginator : Option Paginator

pub record BalanceHistoryResponse : Type 0 where
  pub code : Bytes
  pub message : Bytes
  pub data_ : Option CreditChangeHistoryResponse

pub record ModifyApplicationInfoResponse : Type 0 where
  pub code : Bytes
  pub message : Bytes

pub record CloseAccountResponse : Type 0 where
  pub code : Bytes
  pub message : Bytes
