-- ===== src/Credit/Checks.antt =====
-- atomefin/credit/validation.go, and the checks of the queries in credit.go.
use atome_fin_go_sdk.Base.{
  not, ◌||◌, ◌&&◌, Bool, Option, none, some, ltb, is_empty, Bytes, codes, bytes_eq,
}
use atome_fin_go_sdk.Errors.{invalid}
use atome_fin_go_sdk.Payment.Checks.{Check, ◌>>◌, reject, longer}
use atome_fin_go_sdk.Service.{short_required}
use atome_fin_go_sdk.Transaction.{below_zero, max_count}
use atome_fin_go_sdk.Credit.Types.{
  CreditApplicationParam, CreditApplicationExtendInfo, CreditApplicationChangeParam,
  CreditApplicationChangeExtendInfo, CloseAccountParam, BalanceHistoryParams,
}

-- `Country.IsValid`, `Language.IsValid` and `BalanceHistoryType.IsValid`.
unfoldable pub is_valid_country : Bytes → Bool
is_valid_country c = bytes_eq c (codes "ID")

unfoldable pub is_valid_language : Bytes → Bool
is_valid_language l = bytes_eq l (codes "en") || bytes_eq l (codes "id")

unfoldable pub is_valid_history_type : Bytes → Bool
is_valid_history_type t =
    bytes_eq t (codes "OVERPAID_CHANGE")
    || bytes_eq t (codes "CREDIT_LIMIT_ADJUSTMENT")
    || bytes_eq t (codes "TRADE_AVAILABLE_CREDIT_CHANGE")

unfoldable pub application_info : Option CreditApplicationExtendInfo → Check
application_info none = some (invalid "extendInfo" "required (carries creditInformationRequestId)")
application_info (some info) = do
  reject (is_empty info.credit_information_request_id) "extendInfo.creditInformationRequestId"
      "required (the requestId from the prior /credit-information call)"
  reject (longer info.credit_information_request_id 64) "extendInfo.creditInformationRequestId"
      "exceeds spec maxlength 64"

unfoldable pub validate_credit_application : CreditApplicationParam → Check
unfolding application_info
validate_credit_application req = do
  short_required "requestId" req.request_id
  short_required "externalReferenceUid" req.external_reference_uid
  reject (is_empty req.mobile_number) "mobileNumber" "required"
  short_required "email" req.email
  reject (is_empty req.country) "country" "required"
  reject (not (is_valid_country req.country)) "country" "only ID is currently supported by the spec"
  application_info req.extend_info

change_language : Option CreditApplicationChangeExtendInfo → Check
change_language none = none
change_language (some info) =
    reject (not (is_empty info.language) && not (is_valid_language info.language))
      "extendInfo.language" "must be one of en | id"

unfoldable pub validate_credit_application_change : CreditApplicationChangeParam → Check
unfolding change_language
validate_credit_application_change req = do
  short_required "requestId" req.request_id
  short_required "externalReferenceUid" req.external_reference_uid
  reject (is_empty req.mobile_number) "mobileNumber"
      "required (per spec — the modify endpoint always carries the new mobile)"
  reject (not (is_empty req.email) && longer req.email 64) "email" "exceeds spec maxlength 64"
  change_language req.extend_info

unfoldable pub validate_close_account : CloseAccountParam → Check
validate_close_account req = do
  short_required "requestId" req.request_id
  short_required "externalReferenceUid" req.external_reference_uid

unfoldable pub validate_balance_history_params : BalanceHistoryParams → Check
validate_balance_history_params p = do
  short_required "externalReferenceUid" p.external_reference_uid
  reject (is_empty p.kind) "type" "required"
  reject (not (is_valid_history_type p.kind)) "type"
      "must be one of OVERPAID_CHANGE | CREDIT_LIMIT_ADJUSTMENT | TRADE_AVAILABLE_CREDIT_CHANGE"
  reject (not (is_empty p.request_id) && longer p.request_id 64) "requestId"
      "exceeds spec maxlength 64"
  reject (below_zero p.start) "start" "must be >= 0 (0 → default 1)"
  reject (below_zero p.count) "count" "must be >= 0 (0 → default 10)"
  reject (ltb max_count p.count) "count" "exceeds spec server cap of 50"

-- The checks of QueryResult and QueryInformationResult.
unfoldable pub validate_result_query : (external_reference_uid : Bytes) → Check
validate_result_query external_reference_uid =
    short_required "externalReferenceUid" external_reference_uid

unfoldable pub validate_information_query : (external_reference_uid request_id : Bytes) → Check
validate_information_query external_reference_uid request_id = do
  short_required "externalReferenceUid" external_reference_uid
  reject (is_empty request_id) "requestId"
      "required (the requestId from the prior /credit-information submission)"
  reject (longer request_id 64) "requestId" "exceeds spec maxlength 64"
