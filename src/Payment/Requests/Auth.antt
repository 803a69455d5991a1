-- ===== src/Payment/Requests/Auth.antt =====
-- The /auth validator passes exactly when the rules of the specification,
-- as the SDK applies them, hold.
use atome_fin_go_sdk.Base.{
  ◌∷◌, ℕ, List, [], ◌≤◌, ◌≡◌, ◌≢◌, ◌↔◌, refl, sym, ◌∙◌, true, false, Option, none, some, Bytes,
  is_empty, length, All, arith, IsInt64, IsPositive, int64_mod, ◌==◌, ==_iff, ◌%◌,
}
use atome_fin_go_sdk.Payment.Types.{SubOrder, ExtendInfo, AuthRequest, is_valid_order_type}
use atome_fin_go_sdk.Payment.Checks.{longer}
use atome_fin_go_sdk.Payment.SubOrders.{
  validate_auth_capture_sub_orders, validate_auth_capture_main_order_extend_infos,
  sum_sub_order_amount, sub_order_amounts,
}
use atome_fin_go_sdk.Payment.SubOrders.Rules.{
  Floor, validate_checkout_amounts_iff, Kind, kind_code, is_valid_order_type_iff, AuthOrders,
  RangeOf, validate_auth_capture_sub_orders_iff, is_empty_iff,
}
use atome_fin_go_sdk.Payment.SubOrders.Skus.{SkuRange, SkusFit, SkusFit-iff}
use atome_fin_go_sdk.Payment.SubOrders.Sums.{exact_sum, sum_sub_order_amount_lem}
use atome_fin_go_sdk.Payment.Requests.{with_extend_info, auth_extend_info, validate_auth_request}

-- Present and at most 64 bytes long.
abbrev pub IsShort : Bytes → Type 0
IsShort s = (s ≢ []) × (length s ≤ 64)

-- The order information of a request, of one of the known kinds, with orders that fit it.
pub record Fits (req : AuthRequest) (info : ExtendInfo) : Type 0 where
  pub kind : Kind
  pub code : info.order_type ≡ kind_code kind
  pub orders : AuthOrders kind req.sub_orders
  pub sum : exact_sum req.sub_orders % int64_mod ≡ req.total_amount
  pub skus : SkusFit kind info.main_order_extend_infos

pub record IsAuthorizable (req : AuthRequest) (info : ExtendInfo) : Type 0 where
  pub request_id : IsShort req.request_id
  pub user : req.external_reference_uid ≢ []
  pub total : IsPositive req.total_amount
  pub floor : Floor 20000 req.period_type req.total_amount
  pub amounts : All (λ o. Floor 3 req.period_type o.amount) req.sub_orders
  pub carried : req.extend_info ≡ some info
  pub fits : Fits req info
  pub session : IsShort req.sessionid

-- What holds of every amount holds of every sub-order's amount.
All-sub_order_amounts :
    (Q : ℕ → Type 0) (orders : List SubOrder)
    → All Q (sub_order_amounts orders) ↔ All (λ o. Q o.amount) orders
unfolding sub_order_amounts
All-sub_order_amounts Q [] = (λ h. h, λ h. h)
All-sub_order_amounts Q (o ∷ orders) =
    let (to, from) = All-sub_order_amounts Q orders in (λ (p, h). (p, to h), λ (p, h). (p, from h))

-- The numbers of a request are int64 patterns.
pub record InRange (req : AuthRequest) : Type 0 where
  pub total : IsInt64 req.total_amount
  pub orders : RangeOf req.sub_orders
  pub amounts : All IsInt64 (sub_order_amounts req.sub_orders)
  pub skus :
      (info : ExtendInfo) → req.extend_info ≡ some info → SkuRange info.main_order_extend_infos

module _ (req : AuthRequest) (range : InRange req) where
  auth_extend_info-Fits :
      (info : ExtendInfo)
      → req.extend_info ≡ some info
      → auth_extend_info req info ≡ none
      → Fits req info
  unfolding auth_extend_info
  auth_extend_info-Fits info e h =
      let known : is_valid_order_type info.order_type ≡ true = ground arith in
      let (k, code) = (is_valid_order_type_iff info.order_type).0 known in
      let equal : (sum_sub_order_amount req.sub_orders == req.total_amount) ≡ true = ground arith in
      record {
        kind = k;
        code = code;
        orders =
            (validate_auth_capture_sub_orders_iff k req.sub_orders range.orders).0
              (rw (← code) (ground arith));
        sum =
            sym (sum_sub_order_amount_lem req.sub_orders)
            ∙ (==_iff (sum_sub_order_amount req.sub_orders) req.total_amount).0 equal;
        skus =
            (SkusFit-iff k info.main_order_extend_infos (range.skus info e)).0
              (rw (← code) (ground arith));
      }

  Fits-auth_extend_info :
      (info : ExtendInfo)
      → req.extend_info ≡ some info
      → Fits req info
      → auth_extend_info req info ≡ none
  unfolding auth_extend_info
  Fits-auth_extend_info info e f =
      let known : is_valid_order_type info.order_type ≡ true =
        (is_valid_order_type_iff info.order_type).1 (f.kind, f.code) in
      let orders : validate_auth_capture_sub_orders info.order_type req.sub_orders ≡ none =
        rw f.code
          ((validate_auth_capture_sub_orders_iff f.kind req.sub_orders range.orders).1 f.orders) in
      let equal : (sum_sub_order_amount req.sub_orders == req.total_amount) ≡ true =
        (==_iff (sum_sub_order_amount req.sub_orders) req.total_amount).1
          (sum_sub_order_amount_lem req.sub_orders ∙ f.sum) in
      let skus : validate_auth_capture_main_order_extend_infos info.order_type
            info.main_order_extend_infos
          ≡ none =
        rw f.code
          ((SkusFit-iff f.kind info.main_order_extend_infos (range.skus info e)).1 f.skus) in
      ground arith

  present : (s : Bytes) → is_empty s ≡ false → longer s 64 ≡ false → IsShort s
  present s e l = ((is_empty_iff s).0 e, ground arith)

  -- The order information that passed the nil test.
  carried_info :
      (i : Option ExtendInfo)
      → with_extend_info i (auth_extend_info req) ≡ none
      → (info : ExtendInfo) × (i ≡ some info) × (auth_extend_info req info ≡ none)
  carried_info none h = cc
  carried_info (some info) h = (info, refl, h)

  validate_auth_request-IsAuthorizable :
      validate_auth_request req ≡ none → (info : ExtendInfo) × IsAuthorizable req info
  unfolding validate_auth_request
  validate_auth_request-IsAuthorizable h =
      let amounts = sub_order_amounts req.sub_orders in
      let (info, carried, checked) = carried_info req.extend_info (ground arith) in
      let (floor, each_amount) =
        (validate_checkout_amounts_iff req.period_type req.total_amount amounts range.total
            range.amounts).0
          (ground arith) in
      (
        info,
        record {
          request_id = present req.request_id (ground arith) (ground arith);
          user = (is_empty_iff req.external_reference_uid).0 (ground arith);
          total = ground arith;
          floor = floor;
          amounts = (All-sub_order_amounts (Floor 3 req.period_type) req.sub_orders).0 each_amount;
          carried = carried;
          fits = auth_extend_info-Fits info carried checked;
          session = present req.sessionid (ground arith) (ground arith);
        },
      )

  IsAuthorizable-validate_auth_request :
      (info : ExtendInfo) → IsAuthorizable req info → validate_auth_request req ≡ none
  unfolding validate_auth_request
  IsAuthorizable-validate_auth_request info a =
      let amounts = sub_order_amounts req.sub_orders in
      let floor =
        (validate_checkout_amounts_iff req.period_type req.total_amount amounts range.total
            range.amounts).1
          (a.floor, (All-sub_order_amounts (Floor 3 req.period_type) req.sub_orders).1 a.amounts) in
      let carried = a.carried in
      let total = a.total in
      let checked = Fits-auth_extend_info info a.carried a.fits in
      let id = (is_empty_iff req.request_id).1 a.request_id.0 in
      let short = a.request_id.1 in
      let user = (is_empty_iff req.external_reference_uid).1 a.user in
      let session = (is_empty_iff req.sessionid).1 a.session.0 in
      let short_session = a.session.1 in
      rw (id, user, session, floor, carried, checked) (ground arith)

  -- For a request whose numbers are int64 patterns, the /auth validator passes exactly when its
  -- requestId and sessionid are present and at most 64 bytes long, its user is present, its total is
  -- positive and at least 20,000 for tenor 3, each of its sub-orders has an amount of at least 1, and
  -- 3 for tenor 3, and it carries order information of a known type that the sub-orders fit, whose
  -- sub-orders add up to the total modulo 2 ^ 64 and whose SKU lists are complete.
  pub validate_auth_request_iff :
      (validate_auth_request req ≡ none) ↔ ((info : ExtendInfo) × IsAuthorizable req info)
  validate_auth_request_iff = (
    validate_auth_request-IsAuthorizable,
    λ (info, a). IsAuthorizable-validate_auth_request info a,
  )
