-- ===== src/Sign/Canonical/Gateway.antt =====
-- What a server reads back from the wire query of a signed GET request.
use mathlib.Core.List.{append-nil}
use atome_fin_go_sdk.Base.{
  ℕ, ◌≡◌, ◌≢◌, refl, sym, ap, ◌∙◌, inl, inr, false, List, [], ◌∷◌, ◌++◌, map, Bytes, AreBytes, All,
  All-append, arith, Bool-cases, bytes_eq,
}
use atome_fin_go_sdk.Text.{split, sort_strings}
use atome_fin_go_sdk.Text.Sorting.{sort_strings-All}
use atome_fin_go_sdk.Text.Laws.{Lacks, split-append, split-of_Lacks}
use atome_fin_go_sdk.Url.Hex.{is_unreserved}
use atome_fin_go_sdk.Url.RoundTrip.{is_unreserved-ne}
use atome_fin_go_sdk.Url.Query.{part_pairs, parts_pairs, query_pairs, part_pairs_lem}
use atome_fin_go_sdk.Sign.Escape.{rfc3986_escape}
use atome_fin_go_sdk.Sign.Escape.Laws.{IsSafe, rfc3986_escape-IsSafe, query_unescape-rfc3986_escape}
use atome_fin_go_sdk.Sign.Canonical.{Values, values_of, keys, encode_wire_query}
use atome_fin_go_sdk.Sign.Canonical.Refinement.{
  Pairs, encode_pair, encode_rest, encode_pairs, pairs_of, all_pairs,
  encode_wire_query-encode_pairs,
}

amp : is_unreserved b'&' ≡ false
unfolding is_unreserved
amp = refl

equals : is_unreserved b'=' ≡ false
unfolding is_unreserved
equals = refl

semicolon : is_unreserved b';' ≡ false
unfolding is_unreserved
semicolon = refl

IsSafe-Lacks : (d : ℕ) (s : Bytes) → is_unreserved d ≡ false → d ≢ b'%' → All IsSafe s → Lacks d s
IsSafe-Lacks d [] h k a = tt
IsSafe-Lacks d (c ∷ s) h k (p, a) = (apart p, IsSafe-Lacks d s h k a)
  where
    apart : IsSafe c → c ≢ d
    apart (inl u) = is_unreserved-ne c d u h
    apart (inr e) = λ same. k (sym same ∙ e)

escape-Lacks :
    (d : ℕ) (s : Bytes)
    → is_unreserved d ≡ false
    → d ≢ b'%'
    → AreBytes s
    → Lacks d (rfc3986_escape s)
escape-Lacks d s h k b = IsSafe-Lacks d (rfc3986_escape s) h k (rfc3986_escape-IsSafe s b)

abbrev pub IsText : Bytes × Bytes → Type 0
IsText (k, v) = AreBytes k × AreBytes v

encode_pair-Lacks :
    (d : ℕ) (p : Bytes × Bytes)
    → is_unreserved d ≡ false
    → d ≢ b'%'
    → b'=' ≢ d
    → IsText p
    → Lacks d (encode_pair p)
unfolding encode_pair
encode_pair-Lacks d (k, v) h n e (bk, bv) =
    All-append (λ c. c ≢ d) (rfc3986_escape k) (b'=' ∷ rfc3986_escape v) (escape-Lacks d k h n bk)
      (e, escape-Lacks d v h n bv)

split-encode_rest :
    (s : Bytes) (ps : Pairs)
    → Lacks b'&' s
    → All IsText ps
    → split b'&' (s ++ encode_rest ps) ≡ s ∷ map encode_pair ps
unfolding encode_rest
split-encode_rest s [] l h = rw append-nil (split-of_Lacks b'&' s l)
split-encode_rest s (p ∷ ps) l (t, h) =
    rw (split-append b'&' s (encode_pair p ++ encode_rest ps) l) (
      ap (◌∷◌ s) (
        split-encode_rest (encode_pair p) ps
          (encode_pair-Lacks b'&' p amp (omega arith) (omega arith) t) h))

part_pairs-encode_pair : (p : Bytes × Bytes) → IsText p → part_pairs (encode_pair p) ≡ p ∷ []
unfolding encode_pair
part_pairs-encode_pair (k, v) h =
    part_pairs_lem (rfc3986_escape k) (rfc3986_escape v) k v
      (escape-Lacks b'=' k equals (omega arith) h.0)
      (unfold encode_pair in encode_pair-Lacks b';' (k, v) semicolon (omega arith) (omega arith) h)
      (query_unescape-rfc3986_escape k h.0) (query_unescape-rfc3986_escape v h.1)

parts_pairs-encode_pair : (ps : Pairs) → All IsText ps → parts_pairs (map encode_pair ps) ≡ ps
unfolding parts_pairs
parts_pairs-encode_pair [] h = refl
parts_pairs-encode_pair (p ∷ ps) (t, h) =
    rw (part_pairs-encode_pair p t) (ap (◌∷◌ p) (parts_pairs-encode_pair ps h))

-- Reading the encoded pairs gives the pairs back.
pub query_pairs-encode_pairs : (ps : Pairs) → All IsText ps → query_pairs (encode_pairs ps) ≡ ps
unfolding query_pairs encode_pairs
query_pairs-encode_pairs [] h = unfold split parts_pairs part_pairs in refl
query_pairs-encode_pairs (p ∷ ps) (t, h) =
    rw
      (split-encode_rest (encode_pair p) ps
        (encode_pair-Lacks b'&' p amp (omega arith) (omega arith) t) h)
      (parts_pairs-encode_pair (p ∷ ps) (t, h))

-- Every key and value of a query consists of bytes.
abbrev pub AreTexts : Values → Type 0
AreTexts = All (λ e. AreBytes e.0 × All AreBytes e.1)

values_of-AreBytes :
    (k : Bytes) (values : Values) → AreTexts values → All AreBytes (values_of k values)
unfolding values_of
values_of-AreBytes k [] h = tt
values_of-AreBytes k ((j, vs) ∷ m) ((a, b), h) = elim (Bool-cases (bytes_eq j k)) [
  | inl same ↦ rw same b
  | inr other ↦ rw other (values_of-AreBytes k m h)
]

keys-AreBytes : (values : Values) → AreTexts values → All AreBytes (keys values)
keys-AreBytes [] h = tt
keys-AreBytes (e ∷ m) ((a, b), h) = (a, keys-AreBytes m h)

pairs_of-IsText :
    (k : Bytes) (vs : List Bytes) → AreBytes k → All AreBytes vs → All IsText (pairs_of k vs)
pairs_of-IsText k [] b h = tt
pairs_of-IsText k (v ∷ vs) b (p, h) = ((b, p), pairs_of-IsText k vs b h)

all_pairs-IsText :
    (values : Values) (ks : List Bytes)
    → AreTexts values
    → All AreBytes ks
    → All IsText (all_pairs values ks)
unfolding all_pairs
all_pairs-IsText values [] h b = tt
all_pairs-IsText values (k ∷ ks) h (p, b) =
    All-append IsText (pairs_of k (values_of k values)) (all_pairs values ks)
      (pairs_of-IsText k (values_of k values) p (values_of-AreBytes k values h))
      (all_pairs-IsText values ks h b)

-- For keys and values of bytes, parsing the wire query as net/url does gives every value of every
-- key, with the keys in ascending order and the values of one key in their order.
pub query_pairs-encode_wire_query :
    (values : Values)
    → AreTexts values
    → query_pairs (encode_wire_query values) ≡ all_pairs values (sort_strings (keys values))
query_pairs-encode_wire_query values h = rw (encode_wire_query-encode_pairs values) (
    query_pairs-encode_pairs (all_pairs values (sort_strings (keys values))) (
      all_pairs-IsText values (sort_strings (keys values)) h
        (sort_strings-All AreBytes (keys values) (keys-AreBytes values h))))
