-- ===== src/Payment/SubOrders/Sums.antt =====
-- Sums of sub-order amounts: int64 addition against the sum of the numbers.
use atome_fin_go_sdk.Base.{[], ◌∷◌, ℕ, ◌+◌, ◌%◌, ◌<◌, ◌≡◌, List, arith, int64_mod, add64}
use atome_fin_go_sdk.Payment.Types.{SubOrder}
use atome_fin_go_sdk.Payment.SubOrders.{sum_from, sum_sub_order_amount}

-- The sum without wrap-around.
unfoldable pub exact_sum : List SubOrder → ℕ
exact_sum [] = 0
exact_sum (o ∷ orders) = o.amount + exact_sum orders

sum_from_lem :
    (sum : ℕ) (orders : List SubOrder)
    → sum < int64_mod
    → sum_from sum orders ≡ (sum + exact_sum orders) % int64_mod
unfolding sum_from exact_sum add64
sum_from_lem sum [] h = omega arith
sum_from_lem sum (o ∷ orders) h =
    omega (arith, sum_from_lem ((sum + o.amount) % int64_mod) orders (omega arith))

-- The SDK's sum is the exact sum, reduced modulo 2 ^ 64.
pub sum_sub_order_amount_lem :
    (orders : List SubOrder) → sum_sub_order_amount orders ≡ exact_sum orders % int64_mod
unfolding sum_sub_order_amount
sum_sub_order_amount_lem orders = omega (arith, sum_from_lem 0 orders (omega arith))
