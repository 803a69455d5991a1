-- ===== src/Tests/Services.antt =====
-- The services: a call that succeeds at its second attempt, a credit application and a refund.
use atome_fin_go_sdk.Base.{
  [], ◌∷◌, ◌≡◌, ◌↔◌, refl, none, some, ◌⊎◌, inr, Bytes, codes, arith, bytes_eq, add64,
}
use atome_fin_go_sdk.Errors.{Cause}
use atome_fin_go_sdk.Io.{read_all}
use atome_fin_go_sdk.Client.Encrypted.{post_of}
use atome_fin_go_sdk.Client.Exchange.{dispatch_attempt, read_and_close}
use atome_fin_go_sdk.Client.Dispatch.{
  is_absolute, signed_request, sign_and_dispatch, retry_loop, do_signed, do_signed_get,
}
use atome_fin_go_sdk.Sign.Canonical.{Values}
use atome_fin_go_sdk.Service.{get_call, post_call, checked, decode_response}
use atome_fin_go_sdk.Service.Outcomes.{Succeeded, get_of, get_call-Succeeded, post_call-Succeeded}
use atome_fin_go_sdk.Credit.Types.{CreditApplicationParam}
use atome_fin_go_sdk.Credit.Checks.{validate_credit_application}
use atome_fin_go_sdk.Credit.Rules.{IsApplication, validate_credit_application_iff}
use atome_fin_go_sdk.Refund.Types.{RefundParam}
use atome_fin_go_sdk.Refund.{validate_refund}
use atome_fin_go_sdk.Refund.Rules.{IsRefundable, validate_refund_iff}
use atome_fin_go_sdk.Tests.Requests.{client, world}

abbrev verbatim : Bytes → Cause ⊎ Bytes
verbatim body = inr body

abbrev query : Values
query = (codes "requestId", codes "r" ∷ []) ∷ []

get_succeeds :
    (checked none (get_call client world [] (codes "/query-refund") verbatim query)).0
    ≡ inr (codes "ok")
unfolding checked get_call decode_response do_signed_get sign_and_dispatch retry_loop
    dispatch_attempt read_and_close read_all add64 is_absolute
get_succeeds = refl

get_call-Succeeded_example :
    Succeeded client none verbatim
      (signed_request client (codes "sig") [] (get_of (codes "/query-refund") query))
      (codes "ok")
      (checked none (get_call client world [] (codes "/query-refund") verbatim query)).1
unfolding is_absolute
get_call-Succeeded_example =
    get_call-Succeeded client world [] (codes "/query-refund") verbatim (omega arith) refl none
      query (codes "sig") (codes "ok") refl get_succeeds

post_succeeds :
    (checked none (post_call client world [] (codes "/refund") verbatim (inr (codes "{}")))).0
    ≡ inr (codes "ok")
unfolding checked post_call decode_response do_signed sign_and_dispatch retry_loop dispatch_attempt
    read_and_close read_all add64 is_absolute bytes_eq
post_succeeds = refl

post_call-Succeeded_example :
    Succeeded client none verbatim
      (signed_request client (codes "sig") [] (post_of (codes "/refund") (codes "{}")))
      (codes "ok")
      (checked none (post_call client world [] (codes "/refund") verbatim (inr (codes "{}")))).1
unfolding is_absolute
post_call-Succeeded_example =
    post_call-Succeeded client world [] (codes "/refund") verbatim (omega arith) refl none
      (codes "{}") (codes "sig") (codes "ok") refl post_succeeds

abbrev application : CreditApplicationParam
application = record {
  request_id = codes "r";
  external_reference_uid = codes "u";
  mobile_number = codes "62";
  email = codes "a@b";
  country = codes "ID";
  application_essential_info = none;
  extend_info = some (record { credit_information_request_id = codes "i" });
}

validate_credit_application_iff_example :
    (validate_credit_application application ≡ none) ↔ IsApplication application
validate_credit_application_iff_example = validate_credit_application_iff application

abbrev meal : RefundParam
meal = record {
  request_id = codes "r";
  external_reference_uid = codes "u";
  order_id = codes "o";
  refund_amount = 5;
  sub_orders =
      record { sub_order_id = []; merchant_id = []; merchant_name = []; quantity = 1; amount = 5 }
      ∷ [];
  extend_info = some (record { order_type = codes "GRAB_FOOD" });
}

validate_refund_iff_example : (validate_refund meal ≡ none) ↔ IsRefundable meal
validate_refund_iff_example = validate_refund_iff meal (omega arith, tt) (omega arith)
