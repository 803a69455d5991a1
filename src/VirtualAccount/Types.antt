-- ===== src/VirtualAccount/Types.antt =====
-- The types of atomefin/virtualaccount/virtualaccount.go.
use atome_fin_go_sdk.Base.{ℕ, Option, List, Bytes}

pub record VirtualAccountRequest : Type 0 where
  pub external_reference_uid : Bytes
  pub bank_code : Bytes

pub record VirtualAccount : Type 0 where
  pub va_number : Bytes
  pub bank_code : Bytes
  pub create_time : ℕ

pub record VirtualAccountListResponse : Type 0 where
  pub code : Bytes
  pub message : Bytes
  pub data_ : List Bytes

pub record VirtualAccountResponse : Type 0 where
  pub code : Bytes
  pub message : Bytes
  pub data_ : Option VirtualAccount
