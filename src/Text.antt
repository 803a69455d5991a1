-- ===== src/Text.antt =====
-- The functions of Go's strings package that the SDK calls, over byte lists.
pub mod Laws
pub mod Sorting
use atome_fin_go_sdk.Base.{
  ℕ, Bool, true, false, ◌||◌, ◌&&◌, Option, none, some, List, [], ◌∷◌, ◌++◌, ◌==◌, leb, ltb,
  if◌then◌else◌, Bytes, is_empty,
}

prepend : ℕ → List Bytes → List Bytes
prepend c [] = (c ∷ []) ∷ []
prepend c (s ∷ ss) = (c ∷ s) ∷ ss

-- `strings.Split` at one byte.
unfoldable pub split : ℕ → Bytes → List Bytes
unfolding prepend
split sep [] = [] ∷ []
split sep (c ∷ s) = let rest = split sep s in if c == sep then [] ∷ rest else prepend c rest

extend : ℕ → Bytes × Option Bytes → Bytes × Option Bytes
extend c (before, after) = (c ∷ before, after)

-- `strings.Cut` at one byte: `none` when the byte does not occur.
unfoldable pub cut : ℕ → Bytes → Bytes × Option Bytes
unfolding extend
cut sep [] = ([], none)
cut sep (c ∷ s) = if c == sep then ([], some s) else extend c (cut sep s)

-- The ASCII white space of `strings.TrimSpace`.
unfoldable pub is_space : ℕ → Bool
is_space c = c == b' ' || (leb 9 c && leb c 13)

trim_left : Bytes → Bytes
trim_left [] = []
trim_left (c ∷ s) = let rest = trim_left s in if is_space c then rest else c ∷ s

unless_blank : ℕ → Bytes → Bytes
unless_blank c rest = if is_empty rest && is_space c then [] else c ∷ rest

trim_right : Bytes → Bytes
unfolding unless_blank
trim_right [] = []
trim_right (c ∷ s) = unless_blank c (trim_right s)

unfoldable pub trim_space : Bytes → Bytes
unfolding trim_left trim_right is_space
trim_space s = trim_right (trim_left s)

-- Go's `<=` on strings: lexicographic by bytes.
unfoldable pub bytes_leb : Bytes → Bytes → Bool
bytes_leb [] t = true
bytes_leb (a ∷ s) [] = false
bytes_leb (a ∷ s) (b ∷ t) =
    let rest = bytes_leb s t in if ltb a b then true else if ltb b a then false else rest

unfoldable pub insert_string : Bytes → List Bytes → List Bytes
insert_string s [] = s ∷ []
insert_string s (t ∷ ts) =
    let rest = insert_string s ts in if bytes_leb s t then s ∷ t ∷ ts else t ∷ rest

-- `sort.Strings`.
unfoldable pub sort_strings : List Bytes → List Bytes
unfolding insert_string bytes_leb
sort_strings [] = []
sort_strings (s ∷ ss) = insert_string s (sort_strings ss)
