-- ===== src/Refund/Sums.antt =====
-- The sum of the lines of a refund.
use atome_fin_go_sdk.Base.{
  [], ◌∷◌, ℕ, ◌+◌, ◌%◌, ◌<◌, ◌≡◌, ◌⊎◌, inl, inr, sym, ap, ◌∙◌, Bool-cases, false, none, List,
  le_zero, All, IsInt64, IsPositive, int64_mod, add64, ==_iff, arith,
}
use atome_fin_go_sdk.Errors.{Error}
use atome_fin_go_sdk.Refund.Types.{RefundParam, SubOrderRefundRequest}
use atome_fin_go_sdk.Refund.{refund_sum, sum_check}

-- The sum without wrap-around.
unfoldable pub exact_refund_sum : List SubOrderRefundRequest → ℕ
exact_refund_sum [] = 0
exact_refund_sum (o ∷ orders) = o.amount + exact_refund_sum orders

abbrev pub RefundRange : List SubOrderRefundRequest → Type 0
RefundRange = All (λ o. IsInt64 o.amount)

abbrev pub ArePositive : List SubOrderRefundRequest → Type 0
ArePositive = All (λ o. IsPositive o.amount)

unfoldable pub sum_of : ℕ → List SubOrderRefundRequest → ℕ
sum_of sum orders = (sum + exact_refund_sum orders) % int64_mod

pub from_zero :
    (orders : List SubOrderRefundRequest) → exact_refund_sum orders % int64_mod ≡ sum_of 0 orders
unfolding sum_of
from_zero orders = omega arith

pub refund_sum-ArePositive :
    (sum total : ℕ) (orders : List SubOrderRefundRequest)
    → sum < int64_mod
    → RefundRange orders
    → refund_sum sum orders ≡ inr total
    → ArePositive orders × (total ≡ sum_of sum orders)
unfolding refund_sum exact_refund_sum sum_of add64
refund_sum-ArePositive sum total [] below range h = (tt, sym (sum-of_inr h) ∙ omega (arith, below))
  where
    sum-of_inr : {a b : ℕ} → ◌≡◌ {A = Error ⊎ ℕ} (inr a) (inr b) → a ≡ b
    sum-of_inr e = cc
refund_sum-ArePositive sum total (o ∷ orders) below (r, range) h =
    elim (Bool-cases (le_zero o.amount)) [
      | inl bad ↦ absurd (inl-ne (rw bad at h))
      | inr good ↦
          let (positive, same) =
            refund_sum-ArePositive ((sum + o.amount) % int64_mod) total orders (omega arith) range
              (rw good at h) in
          ((ground (arith, good, r), positive), same ∙ omega arith)
    ]
  where
    inl-ne : {e : Error} → ◌≡◌ {A = Error ⊎ ℕ} (inl e) (inr total) → ⊥
    inl-ne p = cc

pub ArePositive-refund_sum :
    (sum : ℕ) (orders : List SubOrderRefundRequest)
    → sum < int64_mod
    → ArePositive orders
    → refund_sum sum orders ≡ inr (sum_of sum orders)
unfolding refund_sum exact_refund_sum sum_of add64
ArePositive-refund_sum sum [] below h = ap inr (omega (arith, below))
ArePositive-refund_sum sum (o ∷ orders) below (p, h) =
    let good : le_zero o.amount ≡ false = ground (arith, p.0, p.1) in
    rw good (
      ArePositive-refund_sum ((sum + o.amount) % int64_mod) orders (omega arith) h
      ∙ ap inr (omega arith))

pub sum_check-equal :
    (req : RefundParam) (r : Error ⊎ ℕ)
    → sum_check req.refund_amount r ≡ none
    → r ≡ inr req.refund_amount
unfolding sum_check
sum_check-equal req (inl e) h = cc
sum_check-equal req (inr sum) h = ap inr ((==_iff sum req.refund_amount).0 (ground (arith, h)))

pub equal-sum_check : (amount : ℕ) → sum_check amount (inr amount) ≡ none
unfolding sum_check
equal-sum_check amount = ground arith
