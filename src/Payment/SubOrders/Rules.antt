-- ===== src/Payment/SubOrders/Rules.antt =====
-- The rules of suborder_validate.go, stated without the checks: a check passes exactly when its rule
-- holds.
use atome_fin_go_sdk.Base.{
  ◌⊎◌, false, ◌==◌, ==_iff, if◌then◌else◌, subst, [], ◌∷◌, ℕ, ◌≤◌, ◌<◌, ◌≡◌, ◌≢◌, ◌↔◌, refl, sym,
  ap, inl, inr, true, false, none, List, Bytes, codes, bytes_eq, bytes_eq_iff, is_empty, All,
  All-map, arith, IsInt64, IsPositive, int64_half, Bool-cases,
}
use atome_fin_go_sdk.Payment.Types.{
  transport_order, grab_food, grab_mart, SubOrder, is_valid_order_type,
}
use atome_fin_go_sdk.Payment.Checks.{each, >>-passed}
use atome_fin_go_sdk.Payment.SubOrders.{
  positive_amount, amounts_at_least, minimum_total, minimum_sub_order, validate_checkout_amounts,
  validate_food_mart_auth_sub_order, validate_auth_capture_sub_orders,
}
use atome_fin_go_sdk.Errors.{below_minimum, Message}

-- As signed values.
abbrev pub AtLeast : ℕ → ℕ → Type 0
AtLeast minimum amount = (minimum ≤ amount) × (amount < int64_half)

amounts_at_least_iff :
    (minimum : ℕ) (m : Message) (amounts : List ℕ)
    → minimum < int64_half
    → All IsInt64 amounts
    → (amounts_at_least minimum m amounts ≡ none) ↔ All (AtLeast minimum) amounts
unfolding amounts_at_least each
amounts_at_least_iff minimum m [] h r = (λ p. tt, λ p. refl)
amounts_at_least_iff minimum m (a ∷ rest) h (r, rs) =
    let (to, from) = amounts_at_least_iff minimum m rest h rs in
    (
      λ p. (ground arith, to (ground arith)),
      λ q. let k = from q.1 in let p = q.0 in ground (arith, p, k),
    )

-- The floor of tenor 3, and at least 1 for any other tenor.
abbrev pub Floor : (low period amount : ℕ) → Type 0
Floor low period amount = ((period ≡ 3) × AtLeast low amount) ⊎ ((period ≢ 3) × AtLeast 1 amount)

pub Floor-AtLeast :
    (low period amount : ℕ)
    → Floor low period amount
    → AtLeast (if period == 3 then low else 1) amount
Floor-AtLeast low period amount (inl (three, h)) = rw three h
Floor-AtLeast low period amount (inr (other, h)) =
    let test : (period == 3) ≡ false = ground arith in rw test h

AtLeast-Floor :
    (low period amount : ℕ)
    → AtLeast (if period == 3 then low else 1) amount
    → Floor low period amount
AtLeast-Floor low period amount h = elim (Bool-cases (period == 3)) [
  | inl three ↦ inl ((==_iff period 3).0 three, rw three at h)
  | inr other ↦ inr (ground (arith, other), rw other at h)
]

validate_checkout_amounts-AtLeast :
    (period total : ℕ) (amounts : List ℕ)
    → IsInt64 total
    → All IsInt64 amounts
    → (validate_checkout_amounts period total amounts ≡ none)
      ↔ (AtLeast (minimum_total period) total × All (AtLeast (minimum_sub_order period)) amounts)
unfolding validate_checkout_amounts
validate_checkout_amounts-AtLeast period total amounts r rs =
    let (to, from) =
      amounts_at_least_iff (minimum_sub_order period)
        (below_minimum (minimum_sub_order period) period) amounts (ground arith) rs in
    (
      λ p. (ground arith, to (ground arith)),
      λ q. let k = from q.1 in let p = q.0 in ground (arith, p, k),
    )

-- An amount that reaches both floors.
pub Floor-large :
    (low period amount : ℕ)
    → low ≤ amount
    → 1 ≤ amount
    → amount < int64_half
    → Floor low period amount
Floor-large low period amount h one lt = elim (Bool-cases (period == 3)) [
  | inl three ↦ inl ((==_iff period 3).0 three, (h, lt))
  | inr other ↦ inr (ground (arith, other), (one, lt))
]

-- For int64 amounts, the check of the floors passes exactly when the total and every sub-order
-- reach them: 20,000 and 3 for tenor 3, and 1 for any other tenor.
pub validate_checkout_amounts_iff :
    (period total : ℕ) (amounts : List ℕ)
    → IsInt64 total
    → All IsInt64 amounts
    → (validate_checkout_amounts period total amounts ≡ none)
      ↔ (Floor 20000 period total × All (Floor 3 period) amounts)
validate_checkout_amounts_iff period total amounts r rs =
    let (to, from) = validate_checkout_amounts-AtLeast period total amounts r rs in
    (
      λ p.
          let (floor, each) = to p in
          (AtLeast-Floor 20000 period total floor, All-map (AtLeast-Floor 3 period) amounts each),
      λ (floor, each).
          from
            (Floor-AtLeast 20000 period total floor, All-map (Floor-AtLeast 3 period) amounts each),
    )

-- Food and mart sub-orders name their order and merchant; every amount is positive.
abbrev pub FoodMartEntry : SubOrder → Type 0
FoodMartEntry o = (o.sub_order_id ≢ []) × (o.merchant_id ≢ []) × IsPositive o.amount

pub is_empty_iff : (s : Bytes) → (is_empty s ≡ false) ↔ (s ≢ [])
is_empty_iff [] = (λ h. cc, λ h. absurd (h refl))
is_empty_iff (c ∷ s) = (λ h e. cc, λ h. refl)

food_mart_iff :
    (o : SubOrder)
    → IsInt64 o.amount
    → (validate_food_mart_auth_sub_order o ≡ none) ↔ FoodMartEntry o
unfolding validate_food_mart_auth_sub_order
food_mart_iff o r = (
  λ h. (
    (is_empty_iff o.sub_order_id).0 (ground arith),
    (is_empty_iff o.merchant_id).0 (ground arith),
    ground arith,
  ),
  λ (s, m, p).
      let e = (is_empty_iff o.sub_order_id).1 s in
      let f = (is_empty_iff o.merchant_id).1 m in rw (e, f) (ground (arith, p)),
)

abbrev pub RangeOf : List SubOrder → Type 0
RangeOf = All (λ o. IsInt64 o.amount)

food_mart-All_iff :
    (orders : List SubOrder)
    → RangeOf orders
    → (each validate_food_mart_auth_sub_order orders ≡ none) ↔ All FoodMartEntry orders
unfolding each
food_mart-All_iff [] r = (λ h. tt, λ h. refl)
food_mart-All_iff (o ∷ orders) (r, rs) =
    let (to, from) = food_mart-All_iff orders rs in
    let (here, back) = food_mart_iff o r in
    (λ p. let (q, k) = >>-passed _ _ p in (here q, to k), λ q. rw (back q.0) (from q.1))

-- The order types that the specification names.
pub data Kind : Type 0 where
  ride food mart : Kind

abbrev pub kind_code : Kind → Bytes
kind_code ride = codes "TRANSPORT"
kind_code food = codes "GRAB_FOOD"
kind_code mart = codes "GRAB_MART"

pub is_valid_order_type_iff :
    (t : Bytes) → (is_valid_order_type t ≡ true) ↔ ((k : Kind) × (t ≡ kind_code k))
is_valid_order_type_iff t = (to, from)
  where
    from : (k : Kind) × (t ≡ kind_code k) → is_valid_order_type t ≡ true
    from (ride, e) = rw e (unfold is_valid_order_type bytes_eq in refl)
    from (food, e) = rw e (unfold is_valid_order_type bytes_eq in refl)
    from (mart, e) = rw e (unfold is_valid_order_type bytes_eq in refl)

    to : is_valid_order_type t ≡ true → (k : Kind) × (t ≡ kind_code k)
    to h = elim (Bool-cases (bytes_eq t transport_order)) [
      | inl a ↦ (ride, (bytes_eq_iff t transport_order).0 a)
      | inr a ↦ elim (Bool-cases (bytes_eq t grab_food)) [
        | inl b ↦ (food, (bytes_eq_iff t grab_food).0 b)
        | inr b ↦ (
          mart,
          (bytes_eq_iff t grab_mart).0 (unfold is_valid_order_type in rw (← h) (rw (a, b) refl)),
        )
      ]
    ]

-- One sub-order for a ride or food, at least one for the mart; merchants for food and the mart.
abbrev pub AuthOrders : Kind → List SubOrder → Type 0
AuthOrders ride orders = (o : SubOrder) × (orders ≡ o ∷ []) × IsPositive o.amount
AuthOrders food orders = (o : SubOrder) × (orders ≡ o ∷ []) × FoodMartEntry o
AuthOrders mart orders = (orders ≢ []) × All FoodMartEntry orders

abbrev single_of : List SubOrder → SubOrder → SubOrder
single_of [] d = d
single_of (o ∷ orders) d = o

IsPositive-iff : (amount : ℕ) → IsInt64 amount → (positive_amount amount ≡ none) ↔ IsPositive amount
IsPositive-iff amount r = (λ h. ground arith, λ h. ground arith)

-- For int64 amounts, the check of the sub-orders of a known order type passes exactly when the
-- rule of that type holds.
pub validate_auth_capture_sub_orders_iff :
    (k : Kind) (orders : List SubOrder)
    → RangeOf orders
    → (validate_auth_capture_sub_orders (kind_code k) orders ≡ none) ↔ AuthOrders k orders
unfolding validate_auth_capture_sub_orders bytes_eq
validate_auth_capture_sub_orders_iff ride [] r = (λ h. cc, λ h. cc)
validate_auth_capture_sub_orders_iff ride (o ∷ []) r = (
  λ h. (o, refl, (IsPositive-iff o.amount r.0).0 h),
  λ h.
      (IsPositive-iff o.amount r.0).1
        (subst (λ x. IsPositive x.amount) (sym (ap (λ l. single_of l o) h.1)) h.2),
)
validate_auth_capture_sub_orders_iff ride (o ∷ p ∷ orders) r = (λ h. cc, λ h. cc)
validate_auth_capture_sub_orders_iff food [] r = (λ h. cc, λ h. cc)
validate_auth_capture_sub_orders_iff food (o ∷ []) r = (
  λ h. (o, refl, (food_mart_iff o r.0).0 h),
  λ h. (food_mart_iff o r.0).1 (subst FoodMartEntry (sym (ap (λ l. single_of l o) h.1)) h.2),
)
validate_auth_capture_sub_orders_iff food (o ∷ p ∷ orders) r = (λ h. cc, λ h. cc)
validate_auth_capture_sub_orders_iff mart [] r = (λ h. cc, λ h. absurd (h.0 refl))
validate_auth_capture_sub_orders_iff mart (o ∷ orders) r =
    let (to, from) = food_mart-All_iff (o ∷ orders) r in (λ h. (λ e. cc, to h), λ h. from h.1)
