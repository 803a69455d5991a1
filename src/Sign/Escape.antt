-- ===== src/Sign/Escape.antt =====
-- atomefin/sign/canonical.go, the percent-encoder of the canonical form.
pub mod Laws
use atome_fin_go_sdk.Base.{ℕ, Bool, false, not, ◌||◌, List, [], ◌∷◌, ◌++◌, if◌then◌else◌, Bytes}
use atome_fin_go_sdk.Url.Hex.{is_unreserved, percent}

-- The scan of the fast path: does any byte need an escape?
needs_escape : Bytes → Bool
needs_escape [] = false
needs_escape (c ∷ s) = not (is_unreserved c) || needs_escape s

escape_byte : ℕ → Bytes
escape_byte c = if is_unreserved c then c ∷ [] else percent c

-- The loop that writes byte after byte.
unfoldable pub escape_all : Bytes → Bytes
unfolding escape_byte
escape_all [] = []
escape_all (c ∷ s) = escape_byte c ++ escape_all s

unfoldable pub rfc3986_escape : Bytes → Bytes
unfolding needs_escape escape_all
rfc3986_escape s = if needs_escape s then escape_all s else s
