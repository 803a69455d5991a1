-- ===== src/Text/Laws.antt =====
-- Splitting and cutting at a byte, and trimming.
use atome_fin_go_sdk.Base.{ℕ, ◌≡◌, ◌≢◌, refl, false, some, [], ◌∷◌, ◌++◌, Bytes, All, arith}
use atome_fin_go_sdk.Text.{split, cut, is_space, trim_space, trim_left, trim_right}

-- The byte does not occur.
abbrev pub Lacks : ℕ → Bytes → Type 0
Lacks sep = All (λ c. c ≢ sep)

pub split-append :
    (sep : ℕ) (s t : Bytes) → Lacks sep s → split sep (s ++ sep ∷ t) ≡ s ∷ split sep t
unfolding split
split-append sep [] t h = ground arith
split-append sep (c ∷ s) t (p, h) = rw (split-append sep s t h) (ground arith)

pub split-of_Lacks : (sep : ℕ) (s : Bytes) → Lacks sep s → split sep s ≡ s ∷ []
unfolding split
split-of_Lacks sep [] h = refl
split-of_Lacks sep (c ∷ s) (p, h) = rw (split-of_Lacks sep s h) (ground arith)

pub cut-append : (sep : ℕ) (s t : Bytes) → Lacks sep s → cut sep (s ++ sep ∷ t) ≡ (s, some t)
unfolding cut
cut-append sep [] t h = ground arith
cut-append sep (c ∷ s) t (p, h) = rw (cut-append sep s t h) (ground arith)

abbrev pub Solid : Bytes → Type 0
Solid = All (λ c. is_space c ≡ false)

trim_left-of_Solid : (s : Bytes) → Solid s → trim_left s ≡ s
unfolding trim_left
trim_left-of_Solid [] h = refl
trim_left-of_Solid (c ∷ s) (p, h) = rw p

trim_right-of_Solid : (s : Bytes) → Solid s → trim_right s ≡ s
unfolding trim_right
trim_right-of_Solid [] h = refl
trim_right-of_Solid (c ∷ s) (p, h) = rw (trim_right-of_Solid s h) (ground arith)

-- Trimming leaves a text without blanks as it is.
pub trim_space-of_Solid : (s : Bytes) → Solid s → trim_space s ≡ s
unfolding trim_space
trim_space-of_Solid s h = rw (trim_left-of_Solid s h) (trim_right-of_Solid s h)
