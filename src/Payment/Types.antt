-- ===== src/Payment/Types.antt =====
-- atomefin/payment/types.go and the request types of its endpoints. Fields that no check reads
-- (device, address, risk and display data) are left out.
use atome_fin_go_sdk.Base.{ℕ, Bool, ◌||◌, Option, List, Bytes, codes, bytes_eq}

abbrev pub transport_order : Bytes
transport_order = codes "TRANSPORT"

abbrev pub grab_food : Bytes
grab_food = codes "GRAB_FOOD"

abbrev pub grab_mart : Bytes
grab_mart = codes "GRAB_MART"

-- `PaymentOrderType.IsValid`.
unfoldable pub is_valid_order_type : Bytes → Bool
is_valid_order_type t = bytes_eq t transport_order || bytes_eq t grab_food || bytes_eq t grab_mart

-- Amounts and tenors are int64 patterns.
pub record SubOrder : Type 0 where
  pub sub_order_id : Bytes
  pub merchant_id : Bytes
  pub merchant_name : Bytes
  pub amount : ℕ
  pub period_type : Option ℕ

-- `PlanSubOrder` has the same fields.
abbrev pub PlanSubOrder : Type 0
PlanSubOrder = SubOrder

pub record SkuInfo : Type 0 where
  pub sku_id : Bytes
  pub amount : ℕ

pub record MainOrderExtendInfo : Type 0 where
  pub merchant_id : Bytes
  pub sku_infos : List SkuInfo

-- `RequestExtendInfo` and `CheckoutExtendInfo`.
pub record ExtendInfo : Type 0 where
  pub order_type : Bytes
  pub main_order_extend_infos : List MainOrderExtendInfo

pub record AuthRequest : Type 0 where
  pub request_id : Bytes
  pub external_reference_uid : Bytes
  pub total_amount : ℕ
  pub period_type : ℕ
  pub sub_orders : List SubOrder
  pub extend_info : Option ExtendInfo
  pub sessionid : Bytes

-- `CaptureRequest` and `ReAuthRequest`.
pub record CaptureRequest : Type 0 where
  pub request_id : Bytes
  pub external_reference_uid : Bytes
  pub auth_order_id : Bytes
  pub total_amount : ℕ
  pub period_type : ℕ
  pub sub_orders : List SubOrder
  pub extend_info : Option ExtendInfo

pub record VoidAuthRequest : Type 0 where
  pub request_id : Bytes
  pub external_reference_uid : Bytes
  pub auth_order_id : Bytes

pub record PreCheckRequest : Type 0 where
  pub external_reference_uid : Bytes
  pub total_amount : ℕ
  pub sub_orders : List PlanSubOrder
  -- The order type of `ExtendInfo`, where that is not nil.
  pub order_type : Option Bytes
  pub period_type : ℕ

pub record PlanRequest : Type 0 where
  pub request_id : Bytes
  pub period_type : ℕ
  pub external_reference_uid : Bytes
  pub mode : Bytes
  pub session_id : Bytes
  pub total_amount : ℕ
  pub sub_orders : List PlanSubOrder
  pub extend_info : Option ExtendInfo
  pub sessionid : Bytes
