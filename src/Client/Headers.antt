-- ===== src/Client/Headers.antt =====
-- atomefin/doer.go, the headers of a request: those of the SDK, and those of the call's options.
-- `http.Header` is a map from canonical names to values.
pub mod Reserved
pub mod Extra
use atome_fin_go_sdk.Base.{
  [], ◌∷◌, ℕ, ◌+◌, ◌-◌, Bool, true, false, ◌||◌, ◌&&◌, Option, none, some, List, ◌==◌, leb,
  if◌then◌else◌, Bytes, codes, bytes_eq, all, Dict, put,
}

abbrev within : ℕ → ℕ → ℕ → Bool
within lo hi c = leb lo c && leb c hi

abbrev is_upper : ℕ → Bool
is_upper c = within b'A' b'Z' c

abbrev is_lower : ℕ → Bool
is_lower c = within b'a' b'z' c

member : ℕ → Bytes → Bool
member c [] = false
member c (d ∷ s) = d == c || member c s

-- The bytes of a header field name.
is_token : ℕ → Bool
unfolding member
is_token c = is_upper c || is_lower c || within b'0' b'9' c || member c (codes "!#$%&'*+-.^_`|~")

upper_byte : ℕ → ℕ
upper_byte c = if is_lower c then c - 32 else c

lower_byte : ℕ → ℕ
lower_byte c = if is_upper c then c + 32 else c

cased : Bool → ℕ → ℕ
unfolding upper_byte lower_byte
cased up c = if up then upper_byte c else lower_byte c

canonical_from : Bool → Bytes → Bytes
canonical_from up [] = []
canonical_from up (c ∷ s) = cased up c ∷ canonical_from (c == b'-') s

-- `http.CanonicalHeaderKey` of net/http: a name with a byte that is no token is left alone.
unfoldable pub canonical_header_key : Bytes → Bytes
unfolding canonical_from is_token cased
canonical_header_key s = if all is_token s then canonical_from true s else s

abbrev pub Header : Type 0
Header = Dict (List Bytes)

abbrev pub header_set : Bytes → Bytes → Header → Header
header_set name value h = put (canonical_header_key name) (value ∷ []) h

-- `WithRequestHeader`; a nil option is `none`.
pub record ExtraHeader : Type 0 where
  pub key : Bytes
  pub value : Bytes

unfoldable pub apply_options : List (Option ExtraHeader) → Header → Header
apply_options [] cfg = cfg
apply_options (none ∷ opts) cfg = apply_options opts cfg
apply_options (some o ∷ opts) cfg = apply_options opts (header_set o.key o.value cfg)

unfoldable pub is_reserved_name : Bytes → Bool
is_reserved_name name =
    bytes_eq name (codes "Authorization")
    || bytes_eq name (codes "Content-Type")
    || bytes_eq name (codes "User-Agent")
    || bytes_eq name (codes "Accept")

unfoldable pub is_reserved_header : Bytes → Bool
unfolding is_reserved_name
is_reserved_header name = is_reserved_name (canonical_header_key name)

unfoldable pub populate_headers : (auth user_agent : Bytes) → Header → Header
populate_headers auth user_agent h = header_set (codes "User-Agent") user_agent (
    header_set (codes "Accept") (codes "application/json") (
      header_set (codes "Content-Type") (codes "application/json")
        (header_set (codes "Authorization") auth h)))

-- The loop over `cfg.extraHeaders` in dispatchAttempt.
unfoldable pub merge_headers : Header → Header → Header
merge_headers [] h = h
merge_headers ((k, vs) ∷ extra) h =
    merge_headers extra (if is_reserved_header k then h else put (canonical_header_key k) vs h)

-- The headers of an outgoing request.
unfoldable pub request_headers : (auth user_agent : Bytes) → List (Option ExtraHeader) → Header
unfolding populate_headers merge_headers apply_options
request_headers auth user_agent opts =
    merge_headers (apply_options opts []) (populate_headers auth user_agent [])
