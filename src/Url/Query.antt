-- ===== src/Url/Query.antt =====
-- `URL.Query()` of net/url: the pairs of a query string. A part that is malformed (a semicolon, a
-- bad escape) is dropped, as `Query` ignores the error of `ParseQuery`.
use atome_fin_go_sdk.Base.{
  ℕ, Bool, false, ◌||◌, Option, none, some, List, [], ◌∷◌, ◌++◌, ◌==◌, if◌then◌else◌, Bytes,
  bytes_eq, is_empty, ◌≡◌, refl, arith,
}
use atome_fin_go_sdk.Text.{split, cut}
use atome_fin_go_sdk.Text.Laws.{Lacks, cut-append}
use atome_fin_go_sdk.Url.{query_unescape}

contains_byte : ℕ → Bytes → Bool
contains_byte b [] = false
contains_byte b (c ∷ s) = c == b || contains_byte b s

abbrev or_empty : Option Bytes → Bytes
or_empty none = []
or_empty (some s) = s

decoded : Option Bytes → Option Bytes → List (Bytes × Bytes)
decoded (some k) (some v) = (k, v) ∷ []
decoded (some k) none = []
decoded none v = []

decoded_cut : Bytes × Option Bytes → List (Bytes × Bytes)
unfolding decoded
decoded_cut (k, v) = decoded (query_unescape k) (query_unescape (or_empty v))

-- One part of the query: `key=value`, both unescaped.
unfoldable pub part_pairs : Bytes → List (Bytes × Bytes)
unfolding contains_byte decoded_cut
part_pairs s =
    if is_empty s then [] else if contains_byte b';' s then [] else decoded_cut (cut b'=' s)

unfoldable pub parts_pairs : List Bytes → List (Bytes × Bytes)
parts_pairs [] = []
parts_pairs (p ∷ ps) = part_pairs p ++ parts_pairs ps

unfoldable pub query_pairs : Bytes → List (Bytes × Bytes)
unfolding parts_pairs
query_pairs s = parts_pairs (split b'&' s)

-- `values[k] = append(values[k], v)`.
unfoldable pub add_value : Bytes → Bytes → List (Bytes × List Bytes) → List (Bytes × List Bytes)
add_value k v [] = (k, v ∷ []) ∷ []
add_value k v ((j, vs) ∷ m) =
    let rest = add_value k v m in if bytes_eq j k then (j, vs ++ v ∷ []) ∷ m else (j, vs) ∷ rest

unfoldable pub collect :
    List (Bytes × List Bytes) → List (Bytes × Bytes) → List (Bytes × List Bytes)
collect m [] = m
collect m ((k, v) ∷ ps) = collect (add_value k v m) ps

-- `URL.Query()` as a map.
unfoldable pub query_values : Bytes → List (Bytes × List Bytes)
unfolding collect query_pairs
query_values s = collect [] (query_pairs s)

contains_byte-of_Lacks : (d : ℕ) (s : Bytes) → Lacks d s → contains_byte d s ≡ false
unfolding contains_byte
contains_byte-of_Lacks d [] h = refl
contains_byte-of_Lacks d (c ∷ s) (p, h) = ground (arith, contains_byte-of_Lacks d s h)

is_empty-middle : (s t : Bytes) (c : ℕ) → is_empty (s ++ c ∷ t) ≡ false
is_empty-middle [] t c = refl
is_empty-middle (d ∷ s) t c = refl

-- A part that was written as `key=value` is read as that pair.
pub part_pairs_lem :
    (s t k v : Bytes)
    → Lacks b'=' s
    → Lacks b';' (s ++ b'=' ∷ t)
    → query_unescape s ≡ some k
    → query_unescape t ≡ some v
    → part_pairs (s ++ b'=' ∷ t) ≡ (k, v) ∷ []
unfolding part_pairs
part_pairs_lem s t k v h l p q =
    rw
      (
        is_empty-middle s t b'=',
        contains_byte-of_Lacks b';' (s ++ b'=' ∷ t) l,
        cut-append b'=' s t h,
      )
      (rw (p, q))
