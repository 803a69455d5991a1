-- ===== src/Payment/Checks.antt =====
-- Validation as a chain of checks: `none` is the nil error, and the first failing check decides.
use atome_fin_go_sdk.Base.{
  ℕ, ◌≡◌, ◌↔◌, Bool, false, Option, none, some, List, [], ◌∷◌, String, ltb, length, Bytes,
  if◌then◌else◌, All, arith,
}
use atome_fin_go_sdk.Errors.{Error, invalid}

abbrev pub Check : Type 0
Check = Option Error

infixl 5 ◌>>◌
abbrev pub ◌>>◌ : Check → Check → Check
none >> k = k
some e >> k = some e

abbrev pub refuse : Bool → Error → Check
refuse b e = if b then some e else none

-- `return &ValidationError{Field: field, Message: message}` if the test holds.
abbrev pub reject : Bool → String → String → Check
reject b field message = refuse b (invalid field message)

-- `len(s) > n`.
abbrev pub longer : Bytes → ℕ → Bool
longer s n = ltb n (length s)

-- A range loop whose body may return an error.
unfoldable pub each {ℓ} : {A : Type ℓ} → (A → Check) → List A → Check
each f [] = none
each f (x ∷ xs) = f x >> each f xs

pub >>-eq-none_iff : (m k : Check) → ((m >> k) ≡ none) ↔ ((m ≡ none) × (k ≡ none))
>>-eq-none_iff m k = ground arith

pub >>-passed : (m k : Check) → (m >> k) ≡ none → (m ≡ none) × (k ≡ none)
>>-passed m k h = ground arith

pub refuse-passed : (b : Bool) (e : Error) → refuse b e ≡ none → b ≡ false
refuse-passed b e h = ground arith

-- A loop of checks passes exactly when every check passes.
pub each-eq-none_iff {ℓ} :
    {A : Type ℓ} (f : A → Check) (xs : List A) → (each f xs ≡ none) ↔ All (λ x. f x ≡ none) xs
unfolding each
each-eq-none_iff f [] = (λ h. tt, λ h. ground arith)
each-eq-none_iff f (x ∷ xs) =
    let (to, from) = each-eq-none_iff f xs in
    (
      λ h. let (p, q) = >>-passed (f x) (each f xs) h in (p, to q),
      λ h. (>>-eq-none_iff (f x) (each f xs)).1 (h.0, from h.1),
    )
