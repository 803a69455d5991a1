-- ===== src/Spec/Body.antt =====
-- internal/spec/dispatch.go: ValidateBody, which reports the first required field that is missing.
pub mod Places
pub mod Missing
use atome_fin_go_sdk.Base.{
  [], ◌∷◌, ◌++◌, ℕ, suc, Bool, true, false, not, List, ◌⊎◌, inl, inr, ◌==◌, length, ◌-◌, take, drop,
  if◌then◌else◌, Bytes, codes, bytes_eq, is_empty, itoa,
}
use atome_fin_go_sdk.Text.{split}
use atome_fin_go_sdk.Spec.Json.{Json, null, array, Items, nil, cons, is_null, child_of}

-- `strings.HasSuffix(seg, "[]")` and `strings.TrimSuffix(seg, "[]")`.
unfoldable pub is_array_segment : Bytes → Bool
is_array_segment [] = false
is_array_segment (c ∷ s) =
    let rest = is_array_segment s in if bytes_eq (c ∷ s) (codes "[]") then true else rest

unfoldable pub trim_brackets : Bytes → Bytes
trim_brackets s = if is_array_segment s then take (length s - 2) s else s

starts_with_bracket : Bytes → Bool
starts_with_bracket [] = false
starts_with_bracket (c ∷ s) = c == b'['

unfoldable pub join_rendered : (prefix seg : Bytes) → Bytes
unfolding starts_with_bracket
join_rendered prefix seg =
    if is_empty prefix
    then seg
    else if starts_with_bracket seg
    then prefix ++ seg
    else prefix ++ b'.' ∷ seg

-- `fmt.Sprintf("[%d]", idx)`.
unfoldable pub index_segment : ℕ → Bytes
index_segment n = b'[' ∷ itoa n ++ b']' ∷ []

-- The loop over the elements; `check` is the descent into one.
unfoldable pub check_items : (Json → Bytes → Bytes) → ℕ → Bytes → Items → Bytes
check_items check n rendered nil = []
check_items check n rendered (cons v vs) =
    let missing = check v (join_rendered rendered (index_segment n)) in
    let rest = check_items check (suc n) rendered vs in if is_empty missing then rest else missing

-- The value of an `outer[]` segment.
pub check_array : (Json → Bytes → Bytes) → Bytes → Json → Bytes
check_array check rendered (array vs) = check_items check 0 rendered vs
check_array check rendered _ = []

-- The value of a plain segment; `last` says that no segment follows.
pub check_field : (Json → Bytes → Bytes) → (last : Bool) → Bytes → Json → Bytes
check_field check last rendered next =
    let deeper = check next rendered in
    if is_null next then (if last then rendered else []) else if last then [] else deeper

no_segment : List Bytes → Bool
no_segment [] = true
no_segment (s ∷ ss) = false

-- `segs` is the list from position `i` on.
unfoldable pub descend : (segs : List Bytes) → Json → (rendered : Bytes) → Bytes
unfolding check_array check_field no_segment
descend [] node rendered = if is_null node then rendered else []
descend (seg ∷ segs) node rendered =
    let check : Json → Bytes → Bytes = λ v r. descend segs v r in
    if is_array_segment seg
    then check_array check (join_rendered rendered (trim_brackets seg))
        (child_of node (trim_brackets seg))
    else check_field check (no_segment segs) (join_rendered rendered seg) (child_of node seg)

unfoldable pub split_path : Bytes → List Bytes
split_path p = if is_empty p then [] else split b'.' p

unfoldable pub find_missing : Json → Bytes → Bytes
find_missing doc path = descend (split_path path) doc []

unfoldable pub first_missing : Json → List Bytes → Bytes
first_missing doc [] = []
first_missing doc (path ∷ paths) =
    let missing = find_missing doc path in
    let rest = first_missing doc paths in if is_empty missing then rest else missing

check_decoded : {E : Type 0} → List Bytes → E ⊎ Json → E ⊎ Bytes
check_decoded required (inl e) = inl e
check_decoded required (inr doc) = inr (first_missing doc required)

-- `ValidateBody`; `decode` is json.Unmarshal.
unfoldable pub validate_body :
    {E : Type 0} → (Bytes → E ⊎ Json) → (body : Bytes) → (required : List Bytes) → E ⊎ Bytes
unfolding check_decoded
validate_body decode body [] = inr []
validate_body decode body (path ∷ paths) = check_decoded (path ∷ paths) (decode body)
