-- ===== src/Refund/Scenarios.antt =====
-- The rules of the order types of a refund.
use atome_fin_go_sdk.Base.{
  not, Bool, [], ◌∷◌, ◌≡◌, ◌≢◌, ◌⊎◌, inl, inr, refl, Bool-cases, true, false, Option, none, some,
  List, Bytes, is_empty, length, bytes_eq, bytes_eq_iff, bytes_eq_refl, All, ==_iff,
}
use atome_fin_go_sdk.Errors.{Error}
use atome_fin_go_sdk.Payment.Types.{transport_order, grab_food, grab_mart}
use atome_fin_go_sdk.Payment.Checks.{reject, refuse, each-eq-none_iff, >>-passed, refuse-passed}
use atome_fin_go_sdk.Payment.SubOrders.Rules.{is_empty_iff}
use atome_fin_go_sdk.Refund.Types.{RefundExtendInfo, SubOrderRefundRequest}
use atome_fin_go_sdk.Refund.{scenario_check, extend_info_check}

-- One line for a ride or a meal, a merchant on each line for a mart.
abbrev pub FitsScenario : Bytes → List SubOrderRefundRequest → Type 0
FitsScenario t orders =
    (((t ≡ transport_order) ⊎ (t ≡ grab_food)) × (length orders ≡ 1))
    ⊎ ((t ≡ grab_mart) × All (λ o. o.merchant_id ≢ []) orders)

scenario_check-FitsScenario :
    (orders : List SubOrderRefundRequest) (t : Bytes)
    → scenario_check orders t ≡ none
    → FitsScenario t orders
unfolding scenario_check
scenario_check-FitsScenario orders t h = elim (Bool-cases (bytes_eq t transport_order)) [
  | inl ride ↦ inl (
    inl ((bytes_eq_iff t transport_order).0 ride),
    (==_iff (length orders) 1).0 (one _ _ (rw ride at h)),
  )
  | inr other ↦ elim (Bool-cases (bytes_eq t grab_food)) [
    | inl food ↦ inl (
      inr ((bytes_eq_iff t grab_food).0 food),
      (==_iff (length orders) 1).0 (one _ _ (rw (other, food) at h)),
    )
    | inr no_food ↦ elim (Bool-cases (bytes_eq t grab_mart)) [
      | inl mart ↦ inr (
        (bytes_eq_iff t grab_mart).0 mart,
        merchants orders ((each-eq-none_iff _ orders).0 (rw (other, no_food, mart) at h)),
      )
      | inr no_mart ↦ absurd (some-ne _ (rw (other, no_food, no_mart) at h))
    ]
  ]
]
  where
    one : (e : Error) (b : Bool) → refuse (not b) e ≡ none → b ≡ true
    one e true k = refl
    one e false k = cc

    some-ne : (e : Error) → some e ≡ none → ⊥
    some-ne e k = cc

    merchants :
        (os : List SubOrderRefundRequest)
        → All
            (λ o.
              reject (is_empty o.merchant_id) "subOrders[].merchantId" "required for GRAB_MART"
              ≡ none)
            os
        → All (λ o. o.merchant_id ≢ []) os
    merchants [] k = tt
    merchants (o ∷ os) (p, k) =
        ((is_empty_iff o.merchant_id).0 (refuse-passed _ _ p), merchants os k)

-- The order types are told apart.
mart_apart : (bytes_eq grab_mart transport_order ≡ false) × (bytes_eq grab_mart grab_food ≡ false)
unfolding bytes_eq
mart_apart = (refl, refl)

food_apart : bytes_eq grab_food transport_order ≡ false
unfolding bytes_eq
food_apart = refl

FitsScenario-scenario_check :
    (orders : List SubOrderRefundRequest) (t : Bytes)
    → FitsScenario t orders
    → scenario_check orders t ≡ none
unfolding scenario_check
FitsScenario-scenario_check orders t (inl (inl ride, one)) =
    rw (ride, bytes_eq_refl transport_order, one) refl
FitsScenario-scenario_check orders t (inl (inr food, one)) =
    rw (food, food_apart, bytes_eq_refl grab_food, one) refl
FitsScenario-scenario_check orders t (inr (mart, lines)) =
    rw (mart, mart_apart.0, mart_apart.1, bytes_eq_refl grab_mart)
      ((each-eq-none_iff _ orders).1 (merchants orders lines))
  where
    merchants :
        (os : List SubOrderRefundRequest)
        → All (λ o. o.merchant_id ≢ []) os
        → All
            (λ o.
              reject (is_empty o.merchant_id) "subOrders[].merchantId" "required for GRAB_MART"
              ≡ none)
            os
    merchants [] k = tt
    merchants (o ∷ os) (p, k) = (rw ((is_empty_iff o.merchant_id).1 p) refl, merchants os k)

order_type_present :
    (orders : List SubOrderRefundRequest) (t : Bytes) → FitsScenario t orders → is_empty t ≡ false
order_type_present orders t (inl (inl ride, one)) = rw ride refl
order_type_present orders t (inl (inr food, one)) = rw food refl
order_type_present orders t (inr (mart, lines)) = rw mart refl

-- The order information that passed its checks.
pub carried_info :
    (orders : List SubOrderRefundRequest) (i : Option RefundExtendInfo)
    → extend_info_check orders i ≡ none
    → (info : RefundExtendInfo) × (i ≡ some info) × FitsScenario info.order_type orders
unfolding extend_info_check
carried_info orders none h = cc
carried_info orders (some info) h =
    let (present, checked) = >>-passed _ _ h in
    (info, refl, scenario_check-FitsScenario orders info.order_type checked)

pub informed :
    (orders : List SubOrderRefundRequest) (info : RefundExtendInfo)
    → FitsScenario info.order_type orders
    → extend_info_check orders (some info) ≡ none
unfolding extend_info_check
informed orders info f =
    rw (order_type_present orders info.order_type f)
      (FitsScenario-scenario_check orders info.order_type f)
