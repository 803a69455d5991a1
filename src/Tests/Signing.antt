-- ===== src/Tests/Signing.antt =====
-- atomefin/sign/canonical.go at small queries.
use mathlib.Core.List.{mem-singleton, Permᴰ, Nodup-cons, Nodup-nil, Mem, not-mem-nil}
use atome_fin_go_sdk.Sign.Canonical.Order.{canonical_of_perm, IsMap}
use mathlib.Core.List.{mem-singleton, Permᴰ}
use atome_fin_go_sdk.Base.{Bytes, [], ◌∷◌, ◌≡◌, refl, codes, arith}
use atome_fin_go_sdk.Text.{sort_strings}
use atome_fin_go_sdk.Url.Query.{query_pairs}
use atome_fin_go_sdk.Sign.Canonical.{
  Values, keys, canonical, canonical_query, canonical_query_first_value, encode_wire_query,
}
use atome_fin_go_sdk.Sign.Canonical.Strict.{canonical_query_single, canonical_query-Agrees, Agrees}
use atome_fin_go_sdk.Sign.Canonical.Gateway.{query_pairs-encode_wire_query}
use atome_fin_go_sdk.Sign.Canonical.Order.{canonical_of_perm}
use atome_fin_go_sdk.Sign.Canonical.Refinement.{
  encode_pairs, first_pairs, all_pairs, canonical_query_first_value-encode_pairs,
  encode_wire_query-encode_pairs,
}

abbrev page : Values
page = (codes "p", codes "2" ∷ []) ∷ (codes "a b", codes "x" ∷ []) ∷ []

abbrev twice : Values
twice = (codes "p", codes "2" ∷ codes "3" ∷ []) ∷ []

canonical_query_single_example :
    (canonical_query page ≡ canonical (encode_wire_query page))
    × (canonical_query_first_value page ≡ encode_wire_query page)
canonical_query_single_example = canonical_query_single page (omega arith, (omega arith, tt))

canonical_query-Agrees_example :
    Agrees twice
      (canonical_query twice)
      (canonical_query_first_value twice)
      (encode_wire_query twice)
canonical_query-Agrees_example = canonical_query-Agrees twice

query_pairs-encode_wire_query_example :
    query_pairs (encode_wire_query twice) ≡ all_pairs twice (sort_strings (keys twice))
query_pairs-encode_wire_query_example =
    query_pairs-encode_wire_query twice
      (((omega arith, tt), ((omega arith, tt), ((omega arith, tt), tt))), tt)

canonical_query_first_value-encode_pairs_example :
    canonical_query_first_value page ≡ encode_pairs (first_pairs page (sort_strings (keys page)))
canonical_query_first_value-encode_pairs_example = canonical_query_first_value-encode_pairs page

encode_wire_query-encode_pairs_example :
    encode_wire_query twice ≡ encode_pairs (all_pairs twice (sort_strings (keys twice)))
encode_wire_query-encode_pairs_example = encode_wire_query-encode_pairs twice

abbrev turned : Values
turned = (codes "a b", codes "x" ∷ []) ∷ (codes "p", codes "2" ∷ []) ∷ []

apart : ¬ Mem (codes "p") (codes "a b" ∷ [])
apart h = let e : codes "p" ≡ codes "a b" = (mem-singleton {A = Bytes} hlevel).0 h in cc

page-IsMap : IsMap page
page-IsMap = Nodup-cons.1 (apart, Nodup-cons.1 (not-mem-nil, Nodup-nil))

canonical_of_perm_example :
    (canonical_query_first_value page ≡ canonical_query_first_value turned)
    × (encode_wire_query page ≡ encode_wire_query turned)
    × (canonical_query page ≡ canonical_query turned)
canonical_of_perm_example = canonical_of_perm page turned ∣ Permᴰ.swap refl refl ∣₁ page-IsMap
