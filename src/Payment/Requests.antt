-- ===== src/Payment/Requests.antt =====
-- atomefin/payment: the validators of /auth, /capture, /reAuth, /voidAuth, /payment-precheck,
-- /payment-plan and of the query endpoints.
pub mod Auth
pub mod Overflow
use atome_fin_go_sdk.Base.{
  [], ◌∷◌, ℕ, Bool, true, false, not, ◌||◌, ◌&&◌, Option, none, some, List, ◌==◌, ltb, length,
  is_empty, if◌then◌else◌, Bytes, bytes_eq, le_zero, codes,
}
use atome_fin_go_sdk.Errors.{Error, invalid, at_most_one_entry}
use atome_fin_go_sdk.Payment.Types.{
  transport_order, grab_food, grab_mart, is_valid_order_type, SubOrder, PlanSubOrder, ExtendInfo,
  AuthRequest, CaptureRequest, VoidAuthRequest, PreCheckRequest, PlanRequest,
}
use atome_fin_go_sdk.Payment.Checks.{Check, ◌>>◌, refuse, reject, longer, each}
use atome_fin_go_sdk.Payment.SubOrders.{
  wrong, validate_checkout_amounts, validate_capture_re_auth_amounts, validate_plan_sub_orders,
  validate_auth_capture_sub_orders, validate_capture_sub_orders,
  validate_plan_main_order_extend_infos, validate_auth_capture_main_order_extend_infos,
  sum_sub_order_amount, sub_order_amounts, set_plan_sub_order_amounts,
  all_plan_sub_order_amounts_set,
}

-- `req.ExtendInfo == nil`, then the checks that read it.
abbrev with_extend_info : Option ExtendInfo → (ExtendInfo → Check) → Check
with_extend_info none check = some (invalid "extendInfo" "required (carries orderType)")
with_extend_info (some info) check = check info

abbrev known_order_type : ExtendInfo → Check
known_order_type info =
    reject (not (is_valid_order_type info.order_type)) "extendInfo.orderType"
      "must be one of TRANSPORT | GRAB_FOOD | GRAB_MART"

-- `sum != req.TotalAmount`.
abbrev sum_matches : List SubOrder → ℕ → Check
sum_matches orders total =
    reject (not (sum_sub_order_amount orders == total)) "totalAmount"
      "must equal sum of subOrders[].amount"

abbrev request_id_present : Bytes → Check
request_id_present id = do
  reject (is_empty id) "requestId" "required"
  reject (longer id 64) "requestId" "exceeds spec maxlength 64"

auth_extend_info : AuthRequest → ExtendInfo → Check
auth_extend_info req info = do
  known_order_type info
  validate_auth_capture_sub_orders info.order_type req.sub_orders
  sum_matches req.sub_orders req.total_amount
  validate_auth_capture_main_order_extend_infos info.order_type info.main_order_extend_infos

-- `validateAuthRequest`. The last test of the source, on the platform, has no effect.
unfoldable pub validate_auth_request : AuthRequest → Check
unfolding auth_extend_info
validate_auth_request req = do
  reject (is_empty req.request_id) "requestId"
      "must be non-empty (use a partner-stable idempotency key)"
  reject (longer req.request_id 64) "requestId" "exceeds spec maxlength 64"
  reject (is_empty req.external_reference_uid) "externalReferenceUid" "required"
  reject (le_zero req.total_amount) "totalAmount" "must be > 0 (minor units)"
  validate_checkout_amounts req.period_type req.total_amount (sub_order_amounts req.sub_orders)
  with_extend_info req.extend_info (auth_extend_info req)
  reject (is_empty req.sessionid) "sessionid"
      "required for /auth (per DESIGN.md §1.3); travels in the HTTP `sessionid` header"
  reject (longer req.sessionid 64) "sessionid" "exceeds spec maxlength 64"

capture_extend_info : CaptureRequest → ExtendInfo → Check
capture_extend_info req info = do
  known_order_type info
  validate_capture_sub_orders info.order_type req.sub_orders
  sum_matches req.sub_orders req.total_amount
  validate_auth_capture_main_order_extend_infos info.order_type info.main_order_extend_infos

unfoldable pub validate_capture_request : CaptureRequest → Check
unfolding capture_extend_info
validate_capture_request req = do
  request_id_present req.request_id
  reject (is_empty req.external_reference_uid) "externalReferenceUid"
      "required (must mirror the /auth request that produced authOrderId)"
  reject (is_empty req.auth_order_id) "authOrderId" "required (from prior /auth response)"
  reject (le_zero req.total_amount) "totalAmount" "must be > 0 (minor units)"
  validate_capture_re_auth_amounts req.period_type (sub_order_amounts req.sub_orders)
  with_extend_info req.extend_info (capture_extend_info req)

re_auth_extend_info : CaptureRequest → ExtendInfo → Check
re_auth_extend_info req info = do
  known_order_type info
  validate_auth_capture_sub_orders info.order_type req.sub_orders
  sum_matches req.sub_orders req.total_amount
  validate_auth_capture_main_order_extend_infos info.order_type info.main_order_extend_infos

unfoldable pub validate_re_auth_request : CaptureRequest → Check
unfolding re_auth_extend_info
validate_re_auth_request req = do
  request_id_present req.request_id
  reject (is_empty req.external_reference_uid) "externalReferenceUid" "required"
  reject (longer req.external_reference_uid 64) "externalReferenceUid" "exceeds spec maxlength 64"
  reject (is_empty req.auth_order_id) "authOrderId" "required (the voided original authorization)"
  reject (le_zero req.total_amount) "totalAmount" "must be > 0 (minor units)"
  validate_capture_re_auth_amounts req.period_type (sub_order_amounts req.sub_orders)
  with_extend_info req.extend_info (re_auth_extend_info req)

unfoldable pub validate_void_auth_request : VoidAuthRequest → Check
validate_void_auth_request req = do
  request_id_present req.request_id
  reject (is_empty req.external_reference_uid) "externalReferenceUid" "required"
  reject (is_empty req.auth_order_id) "authOrderId" "required"

-- The tenor of a request, or that of its first sub-order where the request has none.
first_tenor : ℕ → List PlanSubOrder → ℕ
first_tenor period [] = period
first_tenor period (o ∷ orders) =
    if period == 0 then elim o.period_type [ none ↦ period | some p ↦ p ] else period

precheck_order_type : Option Bytes → List PlanSubOrder → Check
precheck_order_type none orders = none
precheck_order_type (some t) orders = do
  reject (not (is_empty t) && not (is_valid_order_type t)) "extendInfo.orderType"
      "must be one of TRANSPORT | GRAB_FOOD | GRAB_MART"
  refuse ((bytes_eq t grab_food || bytes_eq t transport_order) && ltb 1 (length orders))
      (wrong "subOrders" (at_most_one_entry t))

abbrev any_order : List PlanSubOrder → Bool
any_order [] = false
any_order (o ∷ orders) = true

-- `validatePaymentPreCheckRequest`; the assignment to req.PeriodType is `first_tenor`.
unfoldable pub validate_payment_pre_check_request : PreCheckRequest → Check
unfolding first_tenor precheck_order_type
validate_payment_pre_check_request req = do
  reject (is_empty req.external_reference_uid) "externalReferenceUid" "required"
  reject (le_zero req.total_amount) "totalAmount" "must be > 0 (minor units)"
  validate_checkout_amounts req.period_type req.total_amount
      (set_plan_sub_order_amounts req.sub_orders)
  precheck_order_type req.order_type req.sub_orders
  validate_checkout_amounts (first_tenor req.period_type req.sub_orders) req.total_amount
      (set_plan_sub_order_amounts req.sub_orders)
  reject
      (any_order req.sub_orders
        && all_plan_sub_order_amounts_set req.sub_orders
        && not (sum_sub_order_amount req.sub_orders == req.total_amount))
      "totalAmount" "must equal sum of subOrders[].amount"

plan_extend_info : PlanRequest → ExtendInfo → Check
plan_extend_info req info = do
  known_order_type info
  validate_plan_sub_orders info.order_type req.sub_orders
  sum_matches req.sub_orders req.total_amount
  validate_plan_main_order_extend_infos info.order_type info.main_order_extend_infos

-- `PaymentPlanMode.IsValid`.
is_valid_mode : Bytes → Bool
is_valid_mode mode = bytes_eq mode (codes "ask") || bytes_eq mode (codes "get")

unfoldable pub validate_payment_plan_request : PlanRequest → Check
unfolding first_tenor plan_extend_info is_valid_mode
validate_payment_plan_request req = do
  request_id_present req.request_id
  reject (is_empty req.external_reference_uid) "externalReferenceUid" "required"
  reject (not (is_valid_mode req.mode)) "mode" "must be one of ask | get"
  reject (longer req.session_id 64) "sessionId" "exceeds spec maxlength 64"
  reject (le_zero req.total_amount) "totalAmount" "must be > 0 (minor units)"
  validate_checkout_amounts (first_tenor req.period_type req.sub_orders) req.total_amount
      (sub_order_amounts req.sub_orders)
  validate_checkout_amounts req.period_type req.total_amount (sub_order_amounts req.sub_orders)
  with_extend_info req.extend_info (plan_extend_info req)
  reject (longer req.sessionid 64) "sessionid" "exceeds spec maxlength 64"

-- `validateQueryParams`.
unfoldable pub validate_query_params : (request_id external_reference_uid : Bytes) → Check
validate_query_params request_id external_reference_uid = do
  reject (is_empty request_id) "requestId"
      "required (the requestId from the prior outbound submission)"
  reject (longer request_id 64) "requestId" "exceeds spec maxlength 64"
  reject (is_empty external_reference_uid) "externalReferenceUid"
      "required (the partner-side user/account identifier from the prior outbound submission)"
  reject (longer external_reference_uid 64) "externalReferenceUid" "exceeds spec maxlength 64"
