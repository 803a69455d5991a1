-- ===== src/Spec/Json.antt =====
-- What json.Unmarshal decodes into `any`: an object is a map, here the list of its members.
use atome_fin_go_sdk.Base.{
  ℕ, zero, suc, Bool, true, false, Option, none, some, Bytes, bytes_eq, if◌then◌else◌,
}

mutual
  pub data Json : Type 0 where
    null : Json
    boolean : Bool → Json
    number : Bytes → Json
    text : Bytes → Json
    array : Items → Json
    object : Members → Json

  pub data Items : Type 0 where
    nil : Items
    cons : Json → Items → Items

  pub data Members : Type 0 where
    end : Members
    member : Bytes → Json → Members → Members

-- `node == nil`.
abbrev pub is_null : Json → Bool
is_null null = true
is_null _ = false

-- `m[key]`, nil where the key is missing.
unfoldable pub value_of : Bytes → Members → Json
value_of k end = null
value_of k (member j v ms) = if bytes_eq j k then v else value_of k ms

-- `childOf`.
abbrev pub child_of : Json → Bytes → Json
child_of (object ms) k = value_of k ms
child_of _ k = null

unfoldable pub item : ℕ → Items → Option Json
item n nil = none
item zero (cons v vs) = some v
item (suc n) (cons v vs) = item n vs

-- The element of an array at a position.
abbrev pub element_of : Json → ℕ → Option Json
element_of (array vs) n = item n vs
element_of _ n = none
