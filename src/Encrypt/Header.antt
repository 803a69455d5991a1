-- ===== src/Encrypt/Header.antt =====
-- atomefin/encrypt/header.go: the Encrypt header.
pub mod RoundTrip
use atome_fin_go_sdk.Base.{
  [], ◌∷◌, ◌++◌, Option, none, some, List, is_empty, if◌then◌else◌, Bytes, codes, Dict, get, put,
}
use atome_fin_go_sdk.Text.{split, cut, trim_space}
use atome_fin_go_sdk.Url.{query_escape, query_unescape}

abbrev pub symmetric_key_field : Bytes
symmetric_key_field = codes "symmetricKey"

-- `BuildEncryptHeader`.
unfoldable pub build_encrypt_header : Bytes → Bytes
build_encrypt_header wrapped = symmetric_key_field ++ b'=' ∷ query_escape wrapped

abbrev put_unescaped : (k : Bytes) → Option Bytes → Dict Bytes → Option (Dict Bytes)
put_unescaped k none kv = none
put_unescaped k (some v) kv = some (put k v kv)

-- A part that is not empty, cut at its first `=`.
unfoldable pub parse_pair : Bytes × Option Bytes → Dict Bytes → Option (Dict Bytes)
parse_pair (k, none) kv = none
parse_pair (k, some v) kv =
    if is_empty (trim_space k)
    then none
    else put_unescaped (trim_space k) (query_unescape (trim_space v)) kv

unfoldable pub parse_parts : List Bytes → Dict Bytes → Option (Dict Bytes)
parse_parts [] kv = some kv
parse_parts (part ∷ parts) kv =
    let trimmed = trim_space part in
    let skip = parse_parts parts kv in
    if is_empty trimmed
    then skip
    else elim (parse_pair (cut b'=' trimmed) kv) [ none ↦ none | some kv2 ↦ parse_parts parts kv2 ]

abbrev non_empty : Option (Dict Bytes) → Option (Dict Bytes)
non_empty none = none
non_empty (some []) = none
non_empty (some (e ∷ kv)) = some (e ∷ kv)

-- `ParseEncryptHeader`; `none` is any of its errors.
unfoldable pub parse_encrypt_header : Bytes → Option (Dict Bytes)
unfolding parse_parts
parse_encrypt_header header =
    if is_empty (trim_space header) then none else non_empty (parse_parts (split b',' header) [])

-- `SymmetricKeyFrom`.
unfoldable pub symmetric_key_from : Dict Bytes → Option Bytes
symmetric_key_from kv = elim (get symmetric_key_field kv) [
  | none ↦ none
  | some v ↦ if is_empty v then none else some v
]
