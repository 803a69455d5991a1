-- ===== src/Client/Headers/Reserved.antt =====
-- No option of a call can replace the headers that the SDK owns.
use mathlib.Core.Bool.{false≢true}
use atome_fin_go_sdk.Base.{
  [], ◌∷◌, ◌≡◌, refl, sym, ap, ◌∙◌, inl, inr, true, false, Option, some, List, Bytes, codes,
  bytes_eq, bytes_eq_iff, Bool-cases, get, put, get-put, if◌then◌else◌,
}
use atome_fin_go_sdk.Client.Headers.{
  canonical_header_key, Header, ExtraHeader, apply_options, is_reserved_name, is_reserved_header,
  populate_headers, merge_headers, request_headers,
}

reserved-ne :
    (k name : Bytes)
    → is_reserved_name k ≡ false
    → is_reserved_name name ≡ true
    → bytes_eq k name ≡ false
reserved-ne k name h r = elim (Bool-cases (bytes_eq k name)) [
  | inl same ↦ absurd (false≢true (sym h ∙ ap is_reserved_name ((bytes_eq_iff k name).0 same) ∙ r))
  | inr apart ↦ apart
]

get-put_reserved :
    (name k : Bytes) (vs : List Bytes) (h : Header)
    → is_reserved_name name ≡ true
    → get name (if is_reserved_header k then h else put (canonical_header_key k) vs h) ≡ get name h
unfolding is_reserved_header
get-put_reserved name k vs h r = elim (Bool-cases (is_reserved_header k)) [
  | inl skipped ↦ rw skipped
  | inr taken ↦ rw taken (
      get-put (canonical_header_key k) name vs h
      ∙ ap (λ b. if b then some vs else get name h)
          (reserved-ne (canonical_header_key k) name taken r))
]

-- Merging the extra headers leaves a reserved header as it was.
pub merge_headers-get :
    (name : Bytes) (extra h : Header)
    → is_reserved_name name ≡ true
    → get name (merge_headers extra h) ≡ get name h
unfolding merge_headers
merge_headers-get name [] h r = refl
merge_headers-get name ((k, vs) ∷ extra) h r =
    merge_headers-get name extra
      (if is_reserved_header k then h else put (canonical_header_key k) vs h) r
    ∙ get-put_reserved name k vs h r

canonical_auth : canonical_header_key (codes "Authorization") ≡ codes "Authorization"
unfolding canonical_header_key
canonical_auth = refl

canonical_type : canonical_header_key (codes "Content-Type") ≡ codes "Content-Type"
unfolding canonical_header_key
canonical_type = refl

canonical_accept : canonical_header_key (codes "Accept") ≡ codes "Accept"
unfolding canonical_header_key
canonical_accept = refl

canonical_agent : canonical_header_key (codes "User-Agent") ≡ codes "User-Agent"
unfolding canonical_header_key
canonical_agent = refl

sdk_headers : (auth user_agent : Bytes) → Header
sdk_headers auth user_agent =
    (codes "Authorization", auth ∷ [])
    ∷ (codes "Content-Type", codes "application/json" ∷ [])
    ∷ (codes "Accept", codes "application/json" ∷ [])
    ∷ (codes "User-Agent", user_agent ∷ [])
    ∷ []

populate_headers_lem :
    (auth user_agent : Bytes) → populate_headers auth user_agent [] ≡ sdk_headers auth user_agent
unfolding populate_headers sdk_headers put bytes_eq
populate_headers_lem auth user_agent =
    rw (canonical_auth, canonical_type, canonical_accept, canonical_agent)

reserved_value :
    (name auth user_agent : Bytes) (opts : List (Option ExtraHeader))
    → is_reserved_name name ≡ true
    → get name (request_headers auth user_agent opts) ≡ get name (sdk_headers auth user_agent)
unfolding request_headers
reserved_value name auth user_agent opts r =
    merge_headers-get name (apply_options opts []) (populate_headers auth user_agent []) r
    ∙ ap (get name) (populate_headers_lem auth user_agent)

-- Whatever headers the options of a call set, and however their names are spelled, the request
-- carries the signature as its Authorization, the SDK's User-Agent, and JSON as its Content-Type
-- and Accept.
pub request_headers_reserved :
    (auth user_agent : Bytes) (opts : List (Option ExtraHeader))
    → (get (codes "Authorization") (request_headers auth user_agent opts) ≡ some (auth ∷ []))
      × (get (codes "Content-Type") (request_headers auth user_agent opts)
          ≡ some (codes "application/json" ∷ []))
      × (get (codes "Accept") (request_headers auth user_agent opts)
          ≡ some (codes "application/json" ∷ []))
      × (get (codes "User-Agent") (request_headers auth user_agent opts) ≡ some (user_agent ∷ []))
unfolding sdk_headers get bytes_eq is_reserved_name
request_headers_reserved auth user_agent opts = (
  reserved_value (codes "Authorization") auth user_agent opts refl,
  reserved_value (codes "Content-Type") auth user_agent opts refl,
  reserved_value (codes "Accept") auth user_agent opts refl,
  reserved_value (codes "User-Agent") auth user_agent opts refl,
)
