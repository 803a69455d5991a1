-- ===== src/Refund/Rules.antt =====
-- Which refunds the check lets through.
use atome_fin_go_sdk.Base.{
  ◌<◌, [], ◌∷◌, ◌%◌, ◌≤◌, ◌≡◌, ◌≢◌, ◌↔◌, inr, refl, sym, ap, ◌∙◌, false, none, some, List, length,
  le_zero, IsInt64, IsPositive, int64_mod, ◌==◌, arith,
}
use atome_fin_go_sdk.Payment.Checks.{longer, >>-passed, refuse-passed}
use atome_fin_go_sdk.Payment.SubOrders.Rules.{is_empty_iff}
use atome_fin_go_sdk.Payment.Requests.Auth.{IsShort}
use atome_fin_go_sdk.Service.Fields.{short_required-IsShort, IsShort-short_required}
use atome_fin_go_sdk.Refund.Types.{RefundParam, RefundExtendInfo, SubOrderRefundRequest}
use atome_fin_go_sdk.Refund.{refund_sum, validate_refund}
use atome_fin_go_sdk.Refund.Sums.{
  exact_refund_sum, RefundRange, ArePositive, from_zero, refund_sum-ArePositive,
  ArePositive-refund_sum, sum_check-equal, equal-sum_check,
}
use atome_fin_go_sdk.Refund.Scenarios.{FitsScenario, carried_info, informed}

-- The numbers of a request are int64 patterns.
pub record IsRefundable (req : RefundParam) : Type 0 where
  pub request_id : IsShort req.request_id
  pub user : IsShort req.external_reference_uid
  pub order : (req.order_id ≢ []) × (length req.order_id ≤ 32)
  pub amount : IsPositive req.refund_amount
  pub lines : req.sub_orders ≢ []
  pub positive : ArePositive req.sub_orders
  pub sum : exact_refund_sum req.sub_orders % int64_mod ≡ req.refund_amount
  pub info : RefundExtendInfo
  pub carried : req.extend_info ≡ some info
  pub scenario : FitsScenario info.order_type req.sub_orders

lines_present :
    (orders : List SubOrderRefundRequest) → ((length orders == 0) ≡ false) ↔ (orders ≢ [])
lines_present [] = (λ h. cc, λ h. absurd (h refl))
lines_present (o ∷ orders) = (λ h e. cc, λ h. ground arith)

module _ (req : RefundParam) (range : RefundRange req.sub_orders)
    (total : IsInt64 req.refund_amount) where
  validate_refund-IsRefundable : validate_refund req ≡ none → IsRefundable req
  unfolding validate_refund
  validate_refund-IsRefundable h =
      let zero_below : 0 < int64_mod = omega arith in
      let (ids, h1) = >>-passed _ _ h in
      let (users, h2) = >>-passed _ _ h1 in
      let (order, h3) = >>-passed _ _ h2 in
      let (order_length, h4) = >>-passed _ _ h3 in
      let (amount, h5) = >>-passed _ _ h4 in
      let (lines, h6) = >>-passed _ _ h5 in
      let (sums, h7) = >>-passed _ _ h6 in
      let (info, carried, scenario) = carried_info req.sub_orders req.extend_info h7 in
      let (positive, same) =
        refund_sum-ArePositive 0 req.refund_amount req.sub_orders zero_below range
          (sum_check-equal req (refund_sum 0 req.sub_orders) sums) in
      let above = refuse-passed (le_zero req.refund_amount) _ amount in
      let within = refuse-passed (longer req.order_id 32) _ order_length in
      record {
        request_id = short_required-IsShort "requestId" req.request_id ids;
        user = short_required-IsShort "externalReferenceUid" req.external_reference_uid users;
        order = ((is_empty_iff req.order_id).0 (refuse-passed _ _ order), ground (arith, within));
        amount = ground (arith, above, total);
        lines = (lines_present req.sub_orders).0 (refuse-passed _ _ lines);
        positive = positive;
        sum = from_zero req.sub_orders ∙ sym same;
        info = info;
        carried = carried;
        scenario = scenario;
      }

  IsRefundable-validate_refund : IsRefundable req → validate_refund req ≡ none
  unfolding validate_refund
  IsRefundable-validate_refund a =
      let ids = IsShort-short_required "requestId" req.request_id a.request_id in
      let users = IsShort-short_required "externalReferenceUid" req.external_reference_uid a.user in
      let order = (is_empty_iff req.order_id).1 a.order.0 in
      let order_length : longer req.order_id 32 ≡ false = ground (arith, a.order.1) in
      let above : le_zero req.refund_amount ≡ false = ground (arith, a.amount.0, a.amount.1) in
      let lines = (lines_present req.sub_orders).1 a.lines in
      let sums =
        ArePositive-refund_sum 0 req.sub_orders (omega arith) a.positive
        ∙ ap inr (sym (from_zero req.sub_orders) ∙ a.sum) in
      rw
        (
          ids,
          users,
          order,
          order_length,
          above,
          lines,
          sums,
          equal-sum_check req.refund_amount,
          a.carried,
          informed req.sub_orders a.info a.scenario,
        )
        refl

  -- For amounts that are int64 values: the refund check passes exactly when the requestId and user are
  -- present and at most 64 bytes long, its order id is present and at most 32 bytes long, its amount
  -- and those of its lines (one at least) are positive, the lines add up to the amount modulo 2 ^ 64,
  -- and its order type is TRANSPORT or GRAB_FOOD with one line, or GRAB_MART with a merchant on each.
  pub validate_refund_iff : (validate_refund req ≡ none) ↔ IsRefundable req
  validate_refund_iff = (validate_refund-IsRefundable, IsRefundable-validate_refund)
