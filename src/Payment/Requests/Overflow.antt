-- ===== src/Payment/Requests/Overflow.antt =====
-- What the int64 sum of the sub-order amounts lets through.
use atome_fin_go_sdk.Payment.SubOrders.Skus.{SkusFit, SkusFit-iff}
use atome_fin_go_sdk.Base.{
  subst, ◌∷◌, ℕ, ◌<◌, ◌≡◌, none, some, List, codes, arith, int64_mod, int64_half,
}
use atome_fin_go_sdk.Payment.Types.{SubOrder, ExtendInfo, AuthRequest, grab_mart}
use atome_fin_go_sdk.Payment.SubOrders.{sub_order_amounts}
use atome_fin_go_sdk.Payment.SubOrders.Rules.{
  Kind, AuthOrders, FoodMartEntry, Floor-large, validate_auth_capture_sub_orders_iff,
}
use atome_fin_go_sdk.Payment.SubOrders.Sums.{exact_sum}
use atome_fin_go_sdk.Payment.Requests.{validate_auth_request}
use atome_fin_go_sdk.Payment.Requests.Auth.{
  IsAuthorizable, InRange, Fits, validate_auth_request_iff,
}

-- The request with further sub-orders in front.
unfoldable pub with_sub_orders : List SubOrder → AuthRequest → AuthRequest
with_sub_orders orders req = record {
  request_id = req.request_id;
  external_reference_uid = req.external_reference_uid;
  total_amount = req.total_amount;
  period_type = req.period_type;
  sub_orders = orders;
  extend_info = req.extend_info;
  sessionid = req.sessionid;
}

abbrev extra : ℕ → SubOrder
extra amount = record {
  sub_order_id = codes "s";
  merchant_id = codes "m";
  merchant_name = codes "n";
  amount = amount;
  period_type = none;
}

-- Two amounts next to the largest int64, and one that completes 2 ^ 64.
abbrev pub padded : List SubOrder → List SubOrder
padded orders = extra 9223372036854775807 ∷ extra 9223372036854775806 ∷ extra 3 ∷ orders

-- For a request whose numbers are int64 patterns: if /auth accepts it and its sub-orders sum to
-- less than 2 ^ 64, they sum to its total.
pub exact_sum-of_authorized :
    (req : AuthRequest)
    → InRange req
    → validate_auth_request req ≡ none
    → exact_sum req.sub_orders < int64_mod
    → exact_sum req.sub_orders ≡ req.total_amount
exact_sum-of_authorized req range h small =
    let (info, a) = (validate_auth_request_iff req range).0 h in
    let sum = a.fits.sum in omega (arith, sum)

module _ (req : AuthRequest) (range : InRange req) (info : ExtendInfo)
    (carried : req.extend_info ≡ some info) (is_mart : info.order_type ≡ grab_mart) where
  mart_entries : Fits req info → AuthOrders Kind.mart req.sub_orders
  mart_entries f = (validate_auth_capture_sub_orders_iff Kind.mart req.sub_orders range.orders).0 (
      rw (← is_mart, f.code)
        ((validate_auth_capture_sub_orders_iff f.kind req.sub_orders range.orders).1 f.orders))

  entry : (a : ℕ) → 0 < a → a < int64_half → FoodMartEntry (extra a)
  entry a p q = (λ e. cc, λ e. cc, (p, q))

  padded-Fits : Fits req info → Fits (with_sub_orders (padded req.sub_orders) req) info
  unfolding with_sub_orders exact_sum
  padded-Fits f =
      let k = f.kind in
      let code = f.code in
      let sum = f.sum in
      record {
        kind = Kind.mart;
        code = is_mart;
        orders = (
          λ e. cc,
          (
            entry 9223372036854775807 (omega arith) (omega arith),
            (
              entry 9223372036854775806 (omega arith) (omega arith),
              (entry 3 (omega arith) (omega arith), (mart_entries f).1),
            ),
          ),
        );
        sum = omega (arith, sum);
        skus = mart_skus f;
      }
    where
      mart_skus : Fits req info → SkusFit Kind.mart info.main_order_extend_infos
      mart_skus f =
          (SkusFit-iff Kind.mart info.main_order_extend_infos (range.skus info carried)).0 (
            rw (← is_mart, f.code)
              ((SkusFit-iff f.kind info.main_order_extend_infos (range.skus info carried)).1
                f.skus))

  padded-InRange : InRange (with_sub_orders (padded req.sub_orders) req)
  unfolding with_sub_orders sub_order_amounts
  padded-InRange = record {
    total = range.total;
    orders = (omega arith, (omega arith, (omega arith, range.orders)));
    amounts = (omega arith, (omega arith, (omega arith, range.amounts)));
    skus = range.skus;
  }

  same_info : (i : ExtendInfo) → IsAuthorizable req i → i ≡ info
  same_info i a = cc (a.carried, carried)

  padded-IsAuthorizable :
      IsAuthorizable req info → IsAuthorizable (with_sub_orders (padded req.sub_orders) req) info
  unfolding with_sub_orders sub_order_amounts
  padded-IsAuthorizable a = record {
    request_id = a.request_id;
    user = a.user;
    total = a.total;
    floor = a.floor;
    amounts = (
      Floor-large 3 req.period_type _ (omega arith) (omega arith) (omega arith),
      (
        Floor-large 3 req.period_type _ (omega arith) (omega arith) (omega arith),
        (Floor-large 3 req.period_type _ (omega arith) (omega arith) (omega arith), a.amounts),
      ),
    );
    carried = a.carried;
    fits = padded-Fits a.fits;
    session = a.session;
  }

  -- For a request whose numbers are int64 patterns and whose order type is GRAB_MART: if /auth
  -- accepts it, /auth also accepts it with three more sub-orders that add 2 ^ 64 to its amounts.
  pub validate_auth_request-padded :
      validate_auth_request req ≡ none
      → validate_auth_request (with_sub_orders (padded req.sub_orders) req) ≡ none
  validate_auth_request-padded h =
      let (i, a) = (validate_auth_request_iff req range).0 h in
      (validate_auth_request_iff _ padded-InRange).1
        (info, padded-IsAuthorizable (subst (IsAuthorizable req) (same_info i a) a))
