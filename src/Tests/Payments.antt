-- ===== src/Tests/Payments.antt =====
-- atomefin/payment: a mart order with two sub-orders.
use atome_fin_go_sdk.Base.{
  [], ◌∷◌, ℕ, ◌≡◌, ◌<◌, ◌↔◌, refl, none, some, List, codes, int64_mod, arith,
}
use atome_fin_go_sdk.Payment.Types.{
  SubOrder, MainOrderExtendInfo, ExtendInfo, AuthRequest, grab_mart,
}
use atome_fin_go_sdk.Payment.SubOrders.{
  sub_order_amounts, validate_checkout_amounts, validate_auth_capture_sub_orders,
  validate_auth_capture_main_order_extend_infos, sum_sub_order_amount,
}
use atome_fin_go_sdk.Payment.Checks.{each}
use atome_fin_go_sdk.Payment.Types.{is_valid_order_type}
use atome_fin_go_sdk.Base.{bytes_eq, add64, subst}
use atome_fin_go_sdk.Payment.SubOrders.{sub_order_amounts}
use atome_fin_go_sdk.Payment.SubOrders.Skus.{SkuRange}
use atome_fin_go_sdk.Payment.SubOrders.Sums.{exact_sum}
use atome_fin_go_sdk.Payment.Requests.{validate_auth_request}
use atome_fin_go_sdk.Payment.Requests.Auth.{InRange, IsAuthorizable, validate_auth_request_iff}
use atome_fin_go_sdk.Payment.Requests.Overflow.{
  with_sub_orders, padded, exact_sum-of_authorized, validate_auth_request-padded,
}

abbrev sub_order : ℕ → SubOrder
sub_order amount = record {
  sub_order_id = codes "s1";
  merchant_id = codes "m1";
  merchant_name = codes "Shop";
  amount = amount;
  period_type = none;
}

abbrev orders : List SubOrder
orders = sub_order 15000 ∷ sub_order 5000 ∷ []

abbrev infos : List MainOrderExtendInfo
infos =
    record {
      merchant_id = codes "m1";
      sku_infos = record { sku_id = codes "tea"; amount = 20000 } ∷ [];
    }
    ∷ []

abbrev info : ExtendInfo
info = record { order_type = grab_mart; main_order_extend_infos = infos }

abbrev auth : AuthRequest
auth = record {
  request_id = codes "r1";
  external_reference_uid = codes "u1";
  total_amount = 20000;
  period_type = 3;
  sub_orders = orders;
  extend_info = some info;
  sessionid = codes "session";
}

auth-InRange : InRange auth
unfolding sub_order_amounts
auth-InRange = record {
  total = omega arith;
  orders = (omega arith, (omega arith, tt));
  amounts = (omega arith, (omega arith, tt));
  skus = λ i e.
      let same : info ≡ i = cc in
      subst (λ x. SkuRange x.main_order_extend_infos) same ((omega arith, tt), tt);
}

auth_passes : validate_auth_request auth ≡ none
unfolding validate_auth_request validate_checkout_amounts each sub_order_amounts is_valid_order_type
    bytes_eq validate_auth_capture_sub_orders sum_sub_order_amount add64
    validate_auth_capture_main_order_extend_infos
auth_passes = refl

validate_auth_request_iff_example :
    (validate_auth_request auth ≡ none) ↔ ((i : ExtendInfo) × IsAuthorizable auth i)
validate_auth_request_iff_example = validate_auth_request_iff auth auth-InRange

exact_sum_small : exact_sum orders < int64_mod
unfolding exact_sum
exact_sum_small = omega arith

exact_sum-of_authorized_example : exact_sum orders ≡ 20000
exact_sum-of_authorized_example =
    exact_sum-of_authorized auth auth-InRange auth_passes exact_sum_small

validate_auth_request-padded_example :
    validate_auth_request (with_sub_orders (padded orders) auth) ≡ none
validate_auth_request-padded_example =
    validate_auth_request-padded auth auth-InRange info refl refl auth_passes
