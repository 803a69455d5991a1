-- ===== src/Payment/SubOrders.antt =====
-- atomefin/payment/suborder_validate.go: the rules on amounts, sub-orders and SKUs.
pub mod Rules
pub mod Skus
pub mod Sums
use atome_fin_go_sdk.Base.{
  [], ◌∷◌, ℕ, Bool, true, not, ◌||◌, ◌&&◌, none, some, List, ◌==◌, is_empty, map, if◌then◌else◌,
  Bytes, String, bytes_eq, le_zero, lt64, add64,
}
use atome_fin_go_sdk.Errors.{
  Error, Message, below_minimum, below_tenor_minimum, exactly_one_entry, required_for,
  required_for_capture, validation, invalid,
}
use atome_fin_go_sdk.Payment.Types.{
  transport_order, grab_food, grab_mart, SubOrder, PlanSubOrder, SkuInfo, MainOrderExtendInfo,
}
use atome_fin_go_sdk.Payment.Checks.{Check, ◌>>◌, refuse, reject, each}

abbrev pub wrong : String → Message → Error
wrong field message = validation (record { field = field; message = message })

-- `range` over the amounts of sub-orders, each against a minimum.
amounts_at_least : (minimum : ℕ) → Message → List ℕ → Check
amounts_at_least minimum message =
    each (λ amount. refuse (lt64 amount minimum) (wrong "subOrders[].amount" message))

abbrev pub minimum_total : ℕ → ℕ
minimum_total period = if period == 3 then 20000 else 1

abbrev pub minimum_sub_order : ℕ → ℕ
minimum_sub_order period = if period == 3 then 3 else 1

unfoldable pub validate_checkout_amounts : (period total : ℕ) → List ℕ → Check
unfolding amounts_at_least
validate_checkout_amounts period total amounts = do
  refuse (lt64 total (minimum_total period))
      (wrong "totalAmount" (below_minimum (minimum_total period) period))
  amounts_at_least (minimum_sub_order period) (below_minimum (minimum_sub_order period) period)
      amounts

abbrev tenor_minimum : ℕ → ℕ
tenor_minimum period = if lt64 period 1 then 1 else period

unfoldable pub validate_capture_re_auth_amounts : (period : ℕ) → List ℕ → Check
unfolding amounts_at_least
validate_capture_re_auth_amounts period amounts =
    amounts_at_least (tenor_minimum period) (below_tenor_minimum (tenor_minimum period) period)
      amounts

abbrev non_empty {ℓ} : {A : Type ℓ} → List A → Check
non_empty [] = some (invalid "subOrders" "must be non-empty")
non_empty (x ∷ xs) = none

abbrev positive_amount : ℕ → Check
positive_amount amount = reject (le_zero amount) "subOrders[].amount" "must be > 0 (minor units)"

-- Exactly one entry, and then a check of that entry.
abbrev single {ℓ} : {A : Type ℓ} → Bytes → (A → Check) → List A → Check
single order_type check (o ∷ []) = check o
single order_type check orders = some (wrong "subOrders" (exactly_one_entry order_type))

plan_mart_entry : PlanSubOrder → Check
plan_mart_entry o = do
  reject (is_empty o.merchant_id) "subOrders[].merchantId" "required for GRAB_MART"
  positive_amount o.amount

unfoldable pub validate_plan_sub_orders : (order_type : Bytes) → List PlanSubOrder → Check
unfolding plan_mart_entry
validate_plan_sub_orders order_type orders =
    if bytes_eq order_type grab_food || bytes_eq order_type transport_order
    then single order_type (λ o. positive_amount o.amount) orders
    else if bytes_eq order_type grab_mart
    then non_empty orders >> each plan_mart_entry orders
    else non_empty orders

unfoldable pub validate_food_mart_auth_sub_order : SubOrder → Check
validate_food_mart_auth_sub_order o = do
  reject (is_empty o.sub_order_id) "subOrders[].subOrderId" "required"
  reject (is_empty o.merchant_id) "subOrders[].merchantId" "required"
  positive_amount o.amount

unfoldable pub validate_auth_capture_sub_orders : (order_type : Bytes) → List SubOrder → Check
unfolding validate_food_mart_auth_sub_order
validate_auth_capture_sub_orders order_type orders =
    if bytes_eq order_type transport_order
    then single order_type (λ o. positive_amount o.amount) orders
    else if bytes_eq order_type grab_food
    then single order_type validate_food_mart_auth_sub_order orders
    else if bytes_eq order_type grab_mart
    then non_empty orders >> each validate_food_mart_auth_sub_order orders
    else non_empty orders

abbrev named_merchant : Bytes → SubOrder → Check
named_merchant order_type o =
    refuse (is_empty o.merchant_name)
      (wrong "subOrders[].merchantName" (required_for_capture order_type))

unfoldable pub validate_capture_sub_orders : (order_type : Bytes) → List SubOrder → Check
unfolding validate_auth_capture_sub_orders
validate_capture_sub_orders order_type orders =
    validate_auth_capture_sub_orders order_type orders
    >> (if not (bytes_eq order_type grab_food) && not (bytes_eq order_type grab_mart)
        then none
        else each (named_merchant order_type) orders)

sku_entry : SkuInfo → Check
sku_entry sku = do
  reject (is_empty sku.sku_id) "extendInfo.mainOrderExtendInfos[].skuInfos[].skuId" "required"
  reject (le_zero sku.amount) "extendInfo.mainOrderExtendInfos[].skuInfos[].amount"
      "must be > 0 (minor units)"

abbrev some_sku : List SkuInfo → Check
some_sku [] =
    some (invalid "extendInfo.mainOrderExtendInfos[].skuInfos" "required (at least one SKU)")
some_sku (s ∷ ss) = none

main_order_entry : MainOrderExtendInfo → Check
unfolding sku_entry
main_order_entry info = do
  reject (is_empty info.merchant_id) "extendInfo.mainOrderExtendInfos[].merchantId" "required"
  some_sku info.sku_infos
  each sku_entry info.sku_infos

unfoldable pub validate_required_sku_infos : List MainOrderExtendInfo → (scenario : Bytes) → Check
unfolding main_order_entry
validate_required_sku_infos [] scenario =
    some (wrong "extendInfo.mainOrderExtendInfos" (required_for scenario))
validate_required_sku_infos (info ∷ infos) scenario = each main_order_entry (info ∷ infos)

unfoldable pub validate_plan_main_order_extend_infos :
    (order_type : Bytes) → List MainOrderExtendInfo → Check
unfolding validate_required_sku_infos
validate_plan_main_order_extend_infos order_type infos =
    if bytes_eq order_type grab_mart then validate_required_sku_infos infos grab_mart else none

unfoldable pub validate_auth_capture_main_order_extend_infos :
    (order_type : Bytes) → List MainOrderExtendInfo → Check
unfolding validate_required_sku_infos
validate_auth_capture_main_order_extend_infos order_type infos =
    if bytes_eq order_type grab_mart || bytes_eq order_type grab_food
    then validate_required_sku_infos infos order_type
    else none

-- `sumSubOrderAmount` and `sumPlanSubOrderAmount`: int64 addition wraps.
sum_from : ℕ → List SubOrder → ℕ
sum_from sum [] = sum
sum_from sum (o ∷ orders) = sum_from (add64 sum o.amount) orders

unfoldable pub sum_sub_order_amount : List SubOrder → ℕ
unfolding sum_from
sum_sub_order_amount orders = sum_from 0 orders

unfoldable pub sub_order_amounts : List SubOrder → List ℕ
sub_order_amounts orders = map (λ o. o.amount) orders

-- `setPlanSubOrderAmounts`: the amounts that are sent.
unfoldable pub set_plan_sub_order_amounts : List PlanSubOrder → List ℕ
set_plan_sub_order_amounts [] = []
set_plan_sub_order_amounts (o ∷ orders) =
    let rest = set_plan_sub_order_amounts orders in
    if le_zero o.amount then rest else o.amount ∷ rest

unfoldable pub all_plan_sub_order_amounts_set : List PlanSubOrder → Bool
all_plan_sub_order_amounts_set [] = true
all_plan_sub_order_amounts_set (o ∷ orders) =
    not (le_zero o.amount) && all_plan_sub_order_amounts_set orders
