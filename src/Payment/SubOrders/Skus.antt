-- ===== src/Payment/SubOrders/Skus.antt =====
-- The rule on SKUs in suborder_validate.go, stated without the checks.
use atome_fin_go_sdk.Base.{
  [], ◌∷◌, ◌≡◌, ◌≢◌, ◌↔◌, refl, none, List, Bytes, bytes_eq, All, arith, IsInt64, IsPositive,
}
use atome_fin_go_sdk.Payment.Types.{SkuInfo, MainOrderExtendInfo}
use atome_fin_go_sdk.Payment.Checks.{each}
use atome_fin_go_sdk.Payment.SubOrders.{
  sku_entry, some_sku, main_order_entry, validate_required_sku_infos,
  validate_auth_capture_main_order_extend_infos,
}
use atome_fin_go_sdk.Payment.SubOrders.Rules.{Kind, ride, food, mart, kind_code, is_empty_iff}

abbrev pub SkuFits : SkuInfo → Type 0
SkuFits s = (s.sku_id ≢ []) × IsPositive s.amount

abbrev pub SkuRange : List MainOrderExtendInfo → Type 0
SkuRange = All (λ i. All (λ s. IsInt64 s.amount) i.sku_infos)

abbrev pub InfoFits : MainOrderExtendInfo → Type 0
InfoFits i = (i.merchant_id ≢ []) × (i.sku_infos ≢ []) × All SkuFits i.sku_infos

-- Rides carry no SKU rule; food and mart list at least one SKU per merchant, each with an amount.
abbrev pub SkusFit : Kind → List MainOrderExtendInfo → Type 0
SkusFit ride infos = Unit
SkusFit food infos = (infos ≢ []) × All InfoFits infos
SkusFit mart infos = (infos ≢ []) × All InfoFits infos

skus_iff :
    (ss : List SkuInfo)
    → All (λ s. IsInt64 s.amount) ss
    → (each sku_entry ss ≡ none) ↔ All SkuFits ss
unfolding each sku_entry
skus_iff [] r = (λ h. tt, λ h. refl)
skus_iff (s ∷ ss) (r, rs) =
    let (to, from) = skus_iff ss rs in
    let id = is_empty_iff s.sku_id in
    (
      λ p. ((id.0 (ground arith), ground arith), to (ground arith)),
      λ q. rw (id.1 q.0.0) (let k = from q.1 in let p = q.0.1 in ground (arith, p, k)),
    )

some_sku_iff : (ss : List SkuInfo) → (some_sku ss ≡ none) ↔ (ss ≢ [])
some_sku_iff [] = (λ h. cc, λ h. absurd (h refl))
some_sku_iff (s ∷ ss) = (λ h e. cc, λ h. refl)

infos_iff :
    (infos : List MainOrderExtendInfo)
    → SkuRange infos
    → (each main_order_entry infos ≡ none) ↔ All InfoFits infos
unfolding each main_order_entry
infos_iff [] r = (λ h. tt, λ h. refl)
infos_iff (i ∷ infos) (r, rs) =
    let (to, from) = infos_iff infos rs in
    let (skus, back) = skus_iff i.sku_infos r in
    let id = is_empty_iff i.merchant_id in
    let some = some_sku_iff i.sku_infos in
    (
      λ p. ((id.0 (ground arith), some.0 (ground arith), skus (ground arith)), to (ground arith)),
      λ q. rw (id.1 q.0.0, some.1 q.0.1, back q.0.2) (from q.1),
    )

required_iff :
    (infos : List MainOrderExtendInfo) (scenario : Bytes)
    → SkuRange infos
    → (validate_required_sku_infos infos scenario ≡ none) ↔ ((infos ≢ []) × All InfoFits infos)
unfolding validate_required_sku_infos
required_iff [] scenario r = (λ h. cc, λ h. absurd (h.0 refl))
required_iff (i ∷ infos) scenario r =
    let (to, from) = infos_iff (i ∷ infos) r in (λ h. (λ e. cc, to h), λ h. from h.1)

-- For int64 amounts, the SKU check of a known order type passes exactly when the rule of that type
-- holds.
pub SkusFit-iff :
    (k : Kind) (infos : List MainOrderExtendInfo)
    → SkuRange infos
    → (validate_auth_capture_main_order_extend_infos (kind_code k) infos ≡ none) ↔ SkusFit k infos
unfolding validate_auth_capture_main_order_extend_infos bytes_eq
SkusFit-iff ride infos r = (λ h. tt, λ h. refl)
SkusFit-iff food infos r = required_iff infos (kind_code food) r
SkusFit-iff mart infos r = required_iff infos (kind_code mart) r
