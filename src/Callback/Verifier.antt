-- ===== src/Callback/Verifier.antt =====
-- atomefin/callback/verifier.go, and the OVO.HMAC canonical of atomefin/sign/hmac.go.
use atome_fin_go_sdk.Base.{
  [], ◌∷◌, ◌++◌, ℕ, ◌+◌, ◌-◌, ◌%◌, ◌/◌, Bool, true, false, not, ◌||◌, Option, none, some, List,
  is_empty, if◌then◌else◌, Bytes, add64, int64_mod, le_zero, lt64,
}

-- `sign.Verifier.Verify` on a canonical and a signature: true for the nil error. The clock and the
-- time header are milliseconds and the skew is nanoseconds, as int64 patterns.
pub record Verifier : Type 0 where
  pub verifiers : List (Bytes → Bytes → Bool)
  pub body_limit : ℕ
  pub now_ms : ℕ
  pub hmac_client_id : Bytes
  pub hmac_clock_skew : ℕ

unfoldable pub any_verifies : List (Bytes → Bytes → Bool) → (body signature : Bytes) → Bool
any_verifies [] body signature = false
any_verifies (v ∷ vs) body signature =
    let rest = any_verifies vs body signature in if v body signature then true else rest

-- `Verifier.Verify`: true for the nil error. No verifier, and an empty signature, are refused.
unfoldable pub verify : Verifier → (body signature : Bytes) → Bool
unfolding any_verifies
verify v body signature =
    if is_empty signature then false else any_verifies v.verifiers body signature

-- `a - b`, with Go's wrap-around.
unfoldable pub sub64 : ℕ → ℕ → ℕ
sub64 a b = (a + int64_mod - b) % int64_mod

-- `Duration.Milliseconds`, of a duration that is not negative.
unfoldable pub milliseconds : ℕ → ℕ
milliseconds d = d / 1000000

-- `if skewMs < 0 { skewMs = 0 }`.
unfoldable pub not_negative : ℕ → ℕ
not_negative x = if lt64 x 0 then 0 else x

unfoldable pub in_window : (t now skew : ℕ) → Bool
in_window t now skew = not (lt64 (add64 now skew) t || lt64 t (sub64 now skew))

-- After the parsing of the time.
unfoldable pub time_checked : Verifier → Option ℕ → Bool
unfolding in_window not_negative
time_checked v none = false
time_checked v (some t) = in_window t v.now_ms (not_negative (milliseconds v.hmac_clock_skew))

-- `verifyHMACTime`, where `parse_int` is `strconv.ParseInt` in base 10: true for the nil error.
unfoldable pub verify_hmac_time : (parse_int : Bytes → Option ℕ) → Verifier → Bytes → Bool
unfolding time_checked
verify_hmac_time parse_int v time =
    if le_zero v.hmac_clock_skew then true else time_checked v (parse_int time)

-- `OVOHMACCanonical`, where `raw64` is base64 without padding.
unfoldable pub ovo_hmac_canonical :
    (raw64 : Bytes → Bytes) → (client_id time method path body : Bytes) → Bytes
ovo_hmac_canonical raw64 client_id time method path body =
    client_id ++ time ++ method ++ b' ' ∷ path ++ raw64 body
