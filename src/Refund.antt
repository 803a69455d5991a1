-- ===== src/Refund.antt =====
-- atomefin/refund/refund.go: the check of a refund, Refund and QueryRefund.
pub mod Types
pub mod Sums
pub mod Scenarios
pub mod Rules
use atome_fin_go_sdk.Base.{
  [], ◌∷◌, ℕ, not, ◌||◌, Option, none, some, List, ◌⊎◌, inl, inr, ◌==◌, length, if◌then◌else◌,
  Bytes, codes, bytes_eq, is_empty, le_zero, add64,
}
use atome_fin_go_sdk.Errors.{Cause, Error, invalid, exactly_one_entry}
use atome_fin_go_sdk.Client.Exchange.{Client, World}
use atome_fin_go_sdk.Payment.Types.{transport_order, grab_food, grab_mart}
use atome_fin_go_sdk.Payment.Checks.{Check, ◌>>◌, refuse, reject, longer, each}
use atome_fin_go_sdk.Payment.SubOrders.{wrong}
use atome_fin_go_sdk.Service.{
  Call, get_call, post_call, checked, requested, request_id_or, short_required,
}
use atome_fin_go_sdk.Refund.Types.{
  RefundParam, RefundExtendInfo, SubOrderRefundRequest, RefundResponse,
}

-- The loop over the sub-orders: a refusal, or the sum, from a sum so far.
unfoldable pub refund_sum : ℕ → List SubOrderRefundRequest → Error ⊎ ℕ
refund_sum sum [] = inr sum
refund_sum sum (o ∷ orders) =
    let rest = refund_sum (add64 sum o.amount) orders in
    if le_zero o.amount
    then inl (invalid "subOrders[].amount" "must be > 0 (minor units)")
    else rest

pub sum_check : ℕ → Error ⊎ ℕ → Check
sum_check amount (inl e) = some e
sum_check amount (inr sum) =
    reject (not (sum == amount)) "refundAmount"
      "must equal sum of subOrders[].amount (Q25 conservative — partner-pending)"

-- The switch on the order type.
pub scenario_check : List SubOrderRefundRequest → Bytes → Check
scenario_check orders t =
    if bytes_eq t transport_order || bytes_eq t grab_food
    then refuse (not (length orders == 1)) (wrong "subOrders" (exactly_one_entry t))
    else if bytes_eq t grab_mart
    then each
        (λ o. reject (is_empty o.merchant_id) "subOrders[].merchantId" "required for GRAB_MART")
        orders
    else some (invalid "extendInfo.orderType" "must be one of TRANSPORT | GRAB_FOOD | GRAB_MART")

pub extend_info_check : List SubOrderRefundRequest → Option RefundExtendInfo → Check
unfolding scenario_check
extend_info_check orders none = some (invalid "extendInfo.orderType" "required")
extend_info_check orders (some info) = do
  reject (is_empty info.order_type) "extendInfo.orderType" "required"
  scenario_check orders info.order_type

unfoldable pub validate_refund : RefundParam → Check
unfolding sum_check extend_info_check
validate_refund req = do
  short_required "requestId" req.request_id
  short_required "externalReferenceUid" req.external_reference_uid
  reject (is_empty req.order_id) "orderId"
      "required (the orderId returned by the prior /capture call)"
  reject (longer req.order_id 32) "orderId" "exceeds spec maxlength 32"
  reject (le_zero req.refund_amount) "refundAmount" "must be > 0 (minor units)"
  reject (length req.sub_orders == 0) "subOrders" "must be non-empty"
  sum_check req.refund_amount (refund_sum 0 req.sub_orders)
  extend_info_check req.sub_orders req.extend_info

unfoldable pub validate_refund_query : (request_id external_reference_uid : Bytes) → Check
validate_refund_query request_id external_reference_uid = do
  reject (is_empty request_id) "requestId"
      "required (the requestId from the prior /refund submission)"
  reject (longer request_id 64) "requestId" "exceeds spec maxlength 64"
  reject (is_empty external_reference_uid) "externalReferenceUid"
      "required (the partner-side user/account identifier from the prior /refund submission)"
  reject (longer external_reference_uid 64) "externalReferenceUid" "exceeds spec maxlength 64"

module _ (c : Client) (w : World) (base_url : Bytes) (decode : Bytes → Cause ⊎ RefundResponse) where
  -- `Refund`; `minted` is the id that the client's generator gives.
  unfoldable pub refund :
      (RefundParam → Cause ⊎ Bytes) → (minted : Bytes) → Option RefundParam → Call RefundResponse
  refund encode minted req = requested "nil RefundParam" req (λ given.
      let sent = record given { request_id = request_id_or minted given.request_id } in
      checked (validate_refund sent)
        (post_call c w base_url (codes "/refund") decode (encode sent)))

  unfoldable pub query_refund : (request_id external_reference_uid : Bytes) → Call RefundResponse
  query_refund request_id external_reference_uid =
      checked (validate_refund_query request_id external_reference_uid) (
        get_call c w base_url (codes "/query-refund") decode (
          (codes "requestId", request_id ∷ [])
          ∷ (codes "externalReferenceUid", external_reference_uid ∷ [])
          ∷ []))
