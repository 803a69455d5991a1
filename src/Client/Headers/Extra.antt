-- ===== src/Client/Headers/Extra.antt =====
-- The headers that the options of a call add.
use atome_fin_go_sdk.Base.{
  subst, [], ◌∷◌, ◌++◌, ℕ, ◌≡◌, refl, ap, ◌∙◌, inl, inr, Bool, true, false, Option, none, some,
  List, Bytes, bytes_eq, bytes_eq_iff, bytes_eq_refl, Bool-cases, get, put, get-put, if◌then◌else◌,
  all, ◌==◌, arith,
}
use atome_fin_go_sdk.Client.Headers.{
  canonical_header_key, canonical_from, cased, upper_byte, lower_byte, is_token, Header,
  ExtraHeader, apply_options, is_reserved_header, populate_headers, merge_headers, request_headers,
}

cased-cased : (up : Bool) (c : ℕ) → cased up (cased up c) ≡ cased up c
unfolding cased upper_byte lower_byte
cased-cased up c = ground arith

cased-dash : (up : Bool) (c : ℕ) → (cased up c == b'-') ≡ (c == b'-')
unfolding cased upper_byte lower_byte
cased-dash up c = ground arith

cased-token : (up : Bool) (c : ℕ) → is_token c ≡ true → is_token (cased up c) ≡ true
unfolding cased upper_byte lower_byte is_token
cased-token up c h = ground (arith, h)

canonical_from-canonical_from :
    (up : Bool) (s : Bytes) → canonical_from up (canonical_from up s) ≡ canonical_from up s
unfolding canonical_from
canonical_from-canonical_from up [] = refl
canonical_from-canonical_from up (c ∷ s) =
    rw (cased-cased up c, cased-dash up c, canonical_from-canonical_from (c == b'-') s)

canonical_from-token :
    (up : Bool) (s : Bytes) → all is_token s ≡ true → all is_token (canonical_from up s) ≡ true
unfolding canonical_from
canonical_from-token up [] h = refl
canonical_from-token up (c ∷ s) h =
    let first : is_token c ≡ true = ground (arith, h) in
    let others : all is_token s ≡ true = ground (arith, h) in
    rw (cased-token up c first, canonical_from-token (c == b'-') s others)

pub canonical_header_key-canonical_header_key :
    (s : Bytes) → canonical_header_key (canonical_header_key s) ≡ canonical_header_key s
unfolding canonical_header_key
canonical_header_key-canonical_header_key s = elim (Bool-cases (all is_token s)) [
  | inl tokens ↦
      rw (tokens, canonical_from-token true s tokens) (canonical_from-canonical_from true s)
  | inr other ↦ rw (other, other)
]

-- The keys of the map are canonical, and no key stands twice.
abbrev IsHeader : Header → Type 0
IsHeader [] = Unit
IsHeader ((k, vs) ∷ h) = (canonical_header_key k ≡ k) × (get k h ≡ none) × IsHeader h

put-IsHeader :
    (k : Bytes) (vs : List Bytes) (h : Header)
    → canonical_header_key k ≡ k
    → IsHeader h
    → IsHeader (put k vs h)
unfolding put get
put-IsHeader k vs [] c i = (c, refl, tt)
put-IsHeader k vs ((j, ws) ∷ h) c (d, fresh, i) = elim (Bool-cases (bytes_eq j k)) [
  | inl same ↦ rw same (c, subst (λ x. get x h ≡ none) ((bytes_eq_iff j k).0 same) fresh, i)
  | inr apart ↦
      let other : bytes_eq k j ≡ false =
        ground (arith, apart, bytes_eq_iff j k, bytes_eq_iff k j) in
      rw apart (d, rw (get-put k j vs h, other) fresh, put-IsHeader k vs h c i)
]

apply_options-IsHeader :
    (opts : List (Option ExtraHeader)) (cfg : Header)
    → IsHeader cfg
    → IsHeader (apply_options opts cfg)
unfolding apply_options
apply_options-IsHeader [] cfg i = i
apply_options-IsHeader (none ∷ opts) cfg i = apply_options-IsHeader opts cfg i
apply_options-IsHeader (some o ∷ opts) cfg i = apply_options-IsHeader opts _ (
    put-IsHeader (canonical_header_key o.key) (o.value ∷ []) cfg
      (canonical_header_key-canonical_header_key o.key) i)

apply_options-append :
    (opts rest : List (Option ExtraHeader)) (cfg : Header)
    → apply_options (opts ++ rest) cfg ≡ apply_options rest (apply_options opts cfg)
unfolding apply_options
apply_options-append [] rest cfg = refl
apply_options-append (none ∷ opts) rest cfg = apply_options-append opts rest cfg
apply_options-append (some o ∷ opts) rest cfg =
    apply_options-append opts rest (put (canonical_header_key o.key) (o.value ∷ []) cfg)

-- One round of the merge leaves the other headers alone, and the headers left out.
merged-get :
    (k j : Bytes) (vs : List Bytes) (h : Header)
    → canonical_header_key j ≡ j
    → bytes_eq j k ≡ false
    → get k (if is_reserved_header j then h else put (canonical_header_key j) vs h) ≡ get k h
merged-get k j vs h c apart = elim (Bool-cases (is_reserved_header j)) [
  | inl skipped ↦ rw skipped
  | inr taken ↦ rw (taken, c, get-put j k vs h, apart)
]

merge_headers-absent :
    (k : Bytes) (extra h : Header)
    → IsHeader extra
    → get k extra ≡ none
    → get k (merge_headers extra h) ≡ get k h
unfolding merge_headers get
merge_headers-absent k [] h i absent = refl
merge_headers-absent k ((j, vs) ∷ extra) h (c, fresh, i) absent =
    let apart : bytes_eq j k ≡ false = ground (arith, absent) in
    let later : get k extra ≡ none = ground (arith, absent) in
    merge_headers-absent k extra _ i later ∙ merged-get k j vs h c apart

merge_headers-present :
    (k : Bytes) (ws : List Bytes) (extra h : Header)
    → IsHeader extra
    → is_reserved_header k ≡ false
    → get k extra ≡ some ws
    → get k (merge_headers extra h) ≡ some ws
unfolding merge_headers get
merge_headers-present k ws [] h i free p = cc
merge_headers-present k ws ((j, vs) ∷ extra) h (c, fresh, i) free p =
    elim (Bool-cases (bytes_eq j k)) [
      | inl same ↦
          let e = (bytes_eq_iff j k).0 same in
          let taken = ap is_reserved_header e ∙ free in
          let first : some vs ≡ some ws = rw same at p in
          merge_headers-absent k extra _ i (subst (λ x. get x extra ≡ none) e fresh)
          ∙ rw (taken, c, get-put j k vs h, same) first
      | inr apart ↦
          let later : get k extra ≡ some ws = rw apart at p in
          merge_headers-present k ws extra _ i free later
    ]

apply_options-last :
    (opts : List (Option ExtraHeader)) (o : ExtraHeader)
    → get (canonical_header_key o.key) (apply_options (opts ++ some o ∷ []) [])
      ≡ some (o.value ∷ [])
unfolding apply_options
apply_options-last opts o =
    rw
      (
        apply_options-append opts (some o ∷ []) [],
        get-put (canonical_header_key o.key) (canonical_header_key o.key) (o.value ∷ [])
            (apply_options opts []),
        bytes_eq_refl (canonical_header_key o.key),
      )
      refl

-- Where the last option of a call sets a header that the SDK does not own, the request carries that
-- header with that value alone, whatever the options before it set.
pub request_headers-last :
    (auth user_agent : Bytes) (opts : List (Option ExtraHeader)) (o : ExtraHeader)
    → is_reserved_header o.key ≡ false
    → get (canonical_header_key o.key) (request_headers auth user_agent (opts ++ some o ∷ []))
      ≡ some (o.value ∷ [])
unfolding request_headers is_reserved_header
request_headers-last auth user_agent opts o free =
    merge_headers-present (canonical_header_key o.key) (o.value ∷ [])
      (apply_options (opts ++ some o ∷ []) []) (populate_headers auth user_agent [])
      (apply_options-IsHeader (opts ++ some o ∷ []) [] tt)
      (rw (canonical_header_key-canonical_header_key o.key) free) (apply_options-last opts o)
