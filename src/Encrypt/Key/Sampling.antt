-- ===== src/Encrypt/Key/Sampling.antt =====
-- What RandomAESKey draws.
use atome_fin_go_sdk.Base.{
  sym, if◌then◌else◌, subst, [], ◌∷◌, ℕ, zero, suc, ◌≤◌, ◌≡◌, ◌≢◌, refl, ap, ◌∙◌, Bool-cases, inl,
  inr, true, Option, none, some, List, ==_iff, ltb, length, all, Bytes, arith,
}
use atome_fin_go_sdk.Encrypt.Key.{
  Drawn, drawn, failed, pending, alphabet_cutoff, is_letter, also, letter, draw_key, random_aes_key,
  validate_aes_key,
}

-- The draws hold a key that its own check accepts.
abbrev IsKeyOf : (left : ℕ) → Drawn → Type 0
IsKeyOf left (drawn s) = (length s ≡ left) × (all is_letter s ≡ true)
IsKeyOf left failed = Unit
IsKeyOf left pending = Unit

letter-is_letter : (one : ℕ) → is_letter (letter one) ≡ true
letter-is_letter one = ground arith

also-IsKeyOf :
    (left one : ℕ) (d : Drawn) → IsKeyOf left d → IsKeyOf (suc left) (also (letter one) d)
unfolding also
also-IsKeyOf left one (drawn s) (size, letters) =
    (ap suc size, rw (letter-is_letter one, letters) refl)
also-IsKeyOf left one failed h = tt
also-IsKeyOf left one pending h = tt

draw_key-IsKeyOf : (left : ℕ) (reads : List (Option ℕ)) → IsKeyOf left (draw_key left reads)
unfolding draw_key
draw_key-IsKeyOf zero reads = (refl, refl)
draw_key-IsKeyOf (suc left) [] = tt
draw_key-IsKeyOf (suc left) (none ∷ reads) = tt
draw_key-IsKeyOf (suc left) (some one ∷ reads) = elim (Bool-cases (ltb one 234)) [
  | inl small ↦ rw small (also-IsKeyOf left one (draw_key left reads) (draw_key-IsKeyOf left reads))
  | inr large ↦ rw large (draw_key-IsKeyOf (suc left) reads)
]

validate-of_IsKeyOf :
    (d : Drawn) (k : Bytes) → IsKeyOf 32 d → d ≡ drawn k → validate_aes_key k ≡ true
unfolding validate_aes_key
validate-of_IsKeyOf (drawn s) k (size, letters) e =
    subst (λ t. validate_aes_key t ≡ true) (same e)
      (unfold validate_aes_key in rw ((==_iff (length s) 32).1 size, letters) refl)
  where
    same : drawn s ≡ drawn k → s ≡ k
    same e = cc
validate-of_IsKeyOf failed k h e = cc
validate-of_IsKeyOf pending k h e = cc

-- Every key that is drawn passes ValidateAESKey, whatever crypto/rand reads.
pub random_aes_key-validate :
    (reads : List (Option ℕ)) (k : Bytes)
    → random_aes_key reads ≡ drawn k
    → validate_aes_key k ≡ true
unfolding random_aes_key
random_aes_key-validate reads k h =
    validate-of_IsKeyOf (draw_key 32 reads) k (draw_key-IsKeyOf 32 reads) h

-- The reads that succeed with a byte below the cutoff.
unfoldable pub accepted : List (Option ℕ) → ℕ
accepted [] = 0
accepted (none ∷ reads) = accepted reads
accepted (some one ∷ reads) =
    let rest = accepted reads in if ltb one alphabet_cutoff then suc rest else rest

also-not_pending : (c : ℕ) (d : Drawn) → d ≢ pending → also c d ≢ pending
unfolding also
also-not_pending c (drawn s) h e = cc
also-not_pending c failed h e = cc
also-not_pending c pending h e = h refl

draw_key-answers :
    (left : ℕ) (reads : List (Option ℕ)) → left ≤ accepted reads → draw_key left reads ≢ pending
unfolding draw_key accepted
draw_key-answers zero reads h e = cc
draw_key-answers (suc left) [] h e = absurd (omega arith)
draw_key-answers (suc left) (none ∷ reads) h e = cc
draw_key-answers (suc left) (some one ∷ reads) h e = elim (Bool-cases (ltb one 234)) [
  | inl small ↦
      also-not_pending (letter one) (draw_key left reads)
        (draw_key-answers left reads (ground arith)) (sym (unfold draw_key in rw small refl) ∙ e)
  | inr large ↦
      draw_key-answers (suc left) reads (ground arith) (sym (unfold draw_key in rw large refl) ∙ e)
]

-- Where at least 32 of the reads give a byte below 234, the loop asks for no further read: it ends
-- with a key, or at a read that failed.
pub random_aes_key-answers :
    (reads : List (Option ℕ)) → 32 ≤ accepted reads → random_aes_key reads ≢ pending
unfolding random_aes_key
random_aes_key-answers reads h = draw_key-answers 32 reads h
