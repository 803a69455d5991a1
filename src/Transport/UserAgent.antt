-- ===== src/Transport/UserAgent.antt =====
-- atomefin/transport/useragent.go. What package runtime says is a parameter.
use atome_fin_go_sdk.Base.{[], ◌∷◌, ◌++◌, Bytes, codes, is_empty, if◌then◌else◌}
use atome_fin_go_sdk.Text.{trim_space}

-- `runtime.Version()` without its leading "go", and the constants of the platform.
pub record Runtime : Type 0 where
  pub version : Bytes
  pub os : Bytes
  pub arch : Bytes

-- `BuildUserAgent`.
unfoldable pub build_user_agent : Runtime → (version suffix : Bytes) → Bytes
build_user_agent r version suffix =
    let token = trim_space suffix in
    codes "atome-fin-go-sdk"
    ++ (if is_empty version then [] else b'/' ∷ version)
    ++ codes " (go"
    ++ r.version
    ++ codes "; "
    ++ r.os
    ++ b'/' ∷ r.arch
    ++ b')' ∷ (if is_empty token then [] else b' ' ∷ token)
