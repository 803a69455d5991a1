-- ===== src/Credit/Rules.antt =====
-- Which credit applications the check lets through.
use atome_fin_go_sdk.Base.{
  [], ◌≡◌, ◌≢◌, ◌↔◌, refl, sym, true, false, not, Bool, Option, none, some, Bytes, codes, bytes_eq,
  bytes_eq_iff, arith,
}
use atome_fin_go_sdk.Payment.Checks.{>>-passed, refuse-passed}
use atome_fin_go_sdk.Payment.SubOrders.Rules.{is_empty_iff}
use atome_fin_go_sdk.Payment.Requests.Auth.{IsShort}
use atome_fin_go_sdk.Service.Fields.{IsShort-of, short_required-IsShort, IsShort-short_required}
use atome_fin_go_sdk.Credit.Types.{CreditApplicationParam, CreditApplicationExtendInfo}
use atome_fin_go_sdk.Credit.Checks.{is_valid_country, application_info, validate_credit_application}

pub record IsApplication (req : CreditApplicationParam) : Type 0 where
  pub request_id : IsShort req.request_id
  pub user : IsShort req.external_reference_uid
  pub mobile : req.mobile_number ≢ []
  pub email : IsShort req.email
  pub country : req.country ≡ codes "ID"
  pub info : CreditApplicationExtendInfo
  pub carried : req.extend_info ≡ some info
  pub information : IsShort info.credit_information_request_id

carried_info :
    (i : Option CreditApplicationExtendInfo)
    → application_info i ≡ none
    → (info : CreditApplicationExtendInfo) × (i ≡ some info)
      × IsShort info.credit_information_request_id
unfolding application_info
carried_info none h = cc
carried_info (some info) h =
    (info, refl, IsShort-of info.credit_information_request_id (ground arith) (ground arith))

country_of : (c : Bytes) → is_valid_country c ≡ true → c ≡ codes "ID"
unfolding is_valid_country
country_of c h = (bytes_eq_iff c (codes "ID")).0 h

valid_country : is_valid_country (codes "ID") ≡ true
unfolding is_valid_country bytes_eq
valid_country = refl

informed :
    (info : CreditApplicationExtendInfo)
    → IsShort info.credit_information_request_id
    → application_info (some info) ≡ none
unfolding application_info
informed info h = rw ((is_empty_iff info.credit_information_request_id).1 h.0) (ground (arith, h.1))

not-eq-false : {b : Bool} → not b ≡ false → b ≡ true
not-eq-false {b = true} h = refl
not-eq-false {b = false} h = sym h

-- The check of a credit application passes exactly the requests whose requestId, user, e-mail and
-- credit-information requestId are present and at most 64 bytes long, with a mobile number and the
-- country ID.
pub validate_credit_application_iff :
    (req : CreditApplicationParam) → (validate_credit_application req ≡ none) ↔ IsApplication req
unfolding validate_credit_application
validate_credit_application_iff req = (to, from)
  where
    to : validate_credit_application req ≡ none → IsApplication req
    to h =
        let (ids, h1) = >>-passed _ _ h in
        let (users, h2) = >>-passed _ _ h1 in
        let (mobile, h3) = >>-passed _ _ h2 in
        let (emails, h4) = >>-passed _ _ h3 in
        let (present, h5) = >>-passed _ _ h4 in
        let (country, h6) = >>-passed _ _ h5 in
        let (info, carried, information) = carried_info req.extend_info h6 in
        record {
          request_id = short_required-IsShort "requestId" req.request_id ids;
          user = short_required-IsShort "externalReferenceUid" req.external_reference_uid users;
          mobile = (is_empty_iff req.mobile_number).0 (refuse-passed _ _ mobile);
          email = short_required-IsShort "email" req.email emails;
          country = country_of req.country (not-eq-false (refuse-passed _ _ country));
          info = info;
          carried = carried;
          information = information;
        }

    from : IsApplication req → validate_credit_application req ≡ none
    from a =
        let ids = IsShort-short_required "requestId" req.request_id a.request_id in
        let users =
          IsShort-short_required "externalReferenceUid" req.external_reference_uid a.user in
        let mobile = (is_empty_iff req.mobile_number).1 a.mobile in
        let emails = IsShort-short_required "email" req.email a.email in
        let information = informed a.info a.information in
        rw (ids, users, mobile, emails, a.country, valid_country, a.carried, information) refl
