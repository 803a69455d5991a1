-- ===== src/Sign/Canonical/Refinement.antt =====
-- The loops of sign/canonical.go against a specification without builders: the pairs that a query
-- stands for, joined by `&`.
use mathlib.Core.List.{append-nil, append_assoc}
use atome_fin_go_sdk.Base.{◌≡◌, refl, sym, ◌∙◌, Bool, true, false, List, [], ◌∷◌, ◌++◌, Bytes}
use atome_fin_go_sdk.Text.{sort_strings}
use atome_fin_go_sdk.Sign.Escape.{rfc3986_escape}
use atome_fin_go_sdk.Sign.Canonical.{
  Values, values_of, keys, Builder, start, write_pair, first_value_loop, write_first,
  canonical_query_first_value, write_values, wire_loop, encode_wire_query,
}

abbrev pub Pairs : Type 0
Pairs = List (Bytes × Bytes)

-- `k=v`, both escaped.
unfoldable pub encode_pair : Bytes × Bytes → Bytes
encode_pair (k, v) = rfc3986_escape k ++ (b'=' ∷ rfc3986_escape v)

unfoldable pub encode_rest : Pairs → Bytes
encode_rest [] = []
encode_rest (p ∷ ps) = b'&' ∷ (encode_pair p ++ encode_rest ps)

-- The pairs joined by `&`.
unfoldable pub encode_pairs : Pairs → Bytes
unfolding encode_rest
encode_pairs [] = []
encode_pairs (p ∷ ps) = encode_pair p ++ encode_rest ps

abbrev pub pairs_of : Bytes → List Bytes → Pairs
pairs_of k [] = []
pairs_of k (v ∷ vs) = (k, v) ∷ pairs_of k vs

abbrev head_pair : Bytes → List Bytes → Pairs
head_pair k [] = []
head_pair k (v ∷ vs) = (k, v) ∷ []

-- Every value of every key, and the first value of every key.
unfoldable pub all_pairs : Values → List Bytes → Pairs
all_pairs values [] = []
all_pairs values (k ∷ ks) = pairs_of k (values_of k values) ++ all_pairs values ks

unfoldable pub first_pairs : Values → List Bytes → Pairs
first_pairs values [] = []
first_pairs values (k ∷ ks) = head_pair k (values_of k values) ++ first_pairs values ks

render_from : Bool → Bytes → Pairs → Bytes
render_from true out ps = out ++ encode_pairs ps
render_from false out ps = out ++ encode_rest ps

-- What a builder holds once the pairs are written to it.
render : Builder → Pairs → Bytes
unfolding render_from
render b ps = render_from b.first b.out ps

render-write_pair :
    (b : Builder) (k v : Bytes) (ps : Pairs)
    → render (write_pair b (rfc3986_escape k) v) ps ≡ render b ((k, v) ∷ ps)
render-write_pair b k v ps = go b.first b.out
  where
    go :
        (first : Bool) (out : Bytes)
        → render (write_pair (record { first = first; out = out }) (rfc3986_escape k) v) ps
          ≡ render (record { first = first; out = out }) ((k, v) ∷ ps)
    go true out = unfold render write_pair encode_pairs encode_rest encode_pair in simp append_assoc
    go false out =
        unfold render write_pair encode_pairs encode_rest encode_pair in simp append_assoc

render-nil : (b : Builder) → render b [] ≡ b.out
render-nil b = go b.first b.out
  where
    go : (first : Bool) (out : Bytes) → render (record { first = first; out = out }) [] ≡ out
    go true out = unfold render encode_pairs in append-nil out
    go false out = unfold render encode_rest in append-nil out

render-write_first :
    (b : Builder) (k : Bytes) (vs : List Bytes) (ps : Pairs)
    → render (write_first b k vs) ps ≡ render b (head_pair k vs ++ ps)
unfolding write_first
render-write_first b k [] ps = refl
render-write_first b k (v ∷ vs) ps = render-write_pair b k v ps

render-write_values :
    (b : Builder) (k : Bytes) (vs : List Bytes) (ps : Pairs)
    → render (write_values b (rfc3986_escape k) vs) ps ≡ render b (pairs_of k vs ++ ps)
unfolding write_values
render-write_values b k [] ps = refl
render-write_values b k (v ∷ vs) ps =
    render-write_values (write_pair b (rfc3986_escape k) v) k vs ps
    ∙ render-write_pair b k v (pairs_of k vs ++ ps)

first_value_loop-render :
    (values : Values) (b : Builder) (ks : List Bytes)
    → first_value_loop values b ks ≡ render b (first_pairs values ks)
unfolding first_value_loop first_pairs
first_value_loop-render values b [] = sym (render-nil b)
first_value_loop-render values b (k ∷ ks) =
    first_value_loop-render values (write_first b k (values_of k values)) ks
    ∙ render-write_first b k (values_of k values) (first_pairs values ks)

wire_loop-render :
    (values : Values) (b : Builder) (ks : List Bytes)
    → wire_loop values b ks ≡ render b (all_pairs values ks)
unfolding wire_loop all_pairs
wire_loop-render values b [] = sym (render-nil b)
wire_loop-render values b (k ∷ ks) =
    wire_loop-render values (write_values b (rfc3986_escape k) (values_of k values)) ks
    ∙ render-write_values b k (values_of k values) (all_pairs values ks)

-- The first-value canonical is the rendering of the first pair of every key, in the order of the
-- keys.
pub canonical_query_first_value-encode_pairs :
    (values : Values)
    → canonical_query_first_value values
      ≡ encode_pairs (first_pairs values (sort_strings (keys values)))
unfolding canonical_query_first_value
canonical_query_first_value-encode_pairs [] = unfold encode_pairs first_pairs sort_strings in refl
canonical_query_first_value-encode_pairs (e ∷ m) =
    unfold render in first_value_loop-render (e ∷ m) start (sort_strings (keys (e ∷ m)))

-- The wire query is the rendering of all pairs of every key, in the order of the keys.
pub encode_wire_query-encode_pairs :
    (values : Values)
    → encode_wire_query values ≡ encode_pairs (all_pairs values (sort_strings (keys values)))
unfolding encode_wire_query
encode_wire_query-encode_pairs [] = unfold encode_pairs all_pairs sort_strings in refl
encode_wire_query-encode_pairs (e ∷ m) =
    unfold render in wire_loop-render (e ∷ m) start (sort_strings (keys (e ∷ m)))
