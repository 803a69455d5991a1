-- ===== src/Tests/Documents.antt =====
-- internal/spec/dispatch.go: a body with two items, the second without its id.
use atome_fin_go_sdk.Base.{[], ◌∷◌, ◌≡◌, refl, ◌⊎◌, inr, Bytes, List, codes, bytes_eq, itoa, digits}
use atome_fin_go_sdk.Text.{split}
use atome_fin_go_sdk.Spec.Json.{Json, null, array, object, text, nil, cons, end, member, value_of}
use atome_fin_go_sdk.Spec.Body.{
  is_array_segment, trim_brackets, join_rendered, index_segment, check_items, descend, split_path,
  find_missing, first_missing, validate_body,
}
use atome_fin_go_sdk.Spec.Body.Missing.{Reports, validate_body-Reports}

abbrev object_of : Bytes → Json → Json
object_of key v = object (member key v end)

abbrev document : Json
document = object (
    member (codes "items")
      (array
        (cons (object_of (codes "id") (text (codes "7"))) (cons (object_of (codes "id") null) nil)))
      (member (codes "kind") (text []) end))

abbrev decode : Bytes → Bytes ⊎ Json
decode body = inr document

abbrev required : List Bytes
required = codes "kind" ∷ codes "items[].id" ∷ []

reported : validate_body decode [] required ≡ inr (codes "items[1].id")
unfolding validate_body first_missing find_missing descend split_path split is_array_segment
    trim_brackets join_rendered index_segment check_items value_of bytes_eq itoa digits
reported = refl

validate_body-Reports_example :
    (m : Bytes) × (validate_body decode [] required ≡ inr m) × Reports document required m
unfolding split_path split
validate_body-Reports_example =
    validate_body-Reports decode [] required document refl (inr refl, (inr refl, tt))
