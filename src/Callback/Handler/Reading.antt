-- ===== src/Callback/Handler/Reading.antt =====
-- readLimited against the bytes and the fault of a body.
use atome_fin_go_sdk.Base.{
  ℕ, ◌+◌, ◌≤◌, ◌<◌, ◌≡◌, ◌↔◌, inl, inr, refl, sym, ◌∙◌, true, false, Bool-cases, Option, none, some,
  length, Bytes, arith, le_zero, leb, int64_half, int64_mod, add64, lt64, take, length-take, subst,
  ◌%◌,
}
use atome_fin_go_sdk.Io.{Body, read_all, at_end}
use atome_fin_go_sdk.Errors.{Cause}
use atome_fin_go_sdk.Callback.Handler.{within, refused, too_large, read_limited, check_length}

same_body : {a b : Bytes} → within a ≡ within b → a ≡ b
same_body e = cc

-- More bytes than the limit are read up to one more than it.
read_more :
    (n : ℕ) (b : Body)
    → n + 1 < int64_half
    → leb (n + 1) (length b.bytes) ≡ true
    → read_limited n (some b) ≡ refused too_large
unfolding read_limited read_all check_length add64
read_more n b h more =
    let one_more : (n + 1) % int64_mod ≡ n + 1 = omega (arith, h) in
    let positive : le_zero (n + 1) ≡ false = ground (arith, h) in
    let longer : lt64 n (length (take (n + 1) b.bytes)) ≡ true =
      ground (arith, h, more, length-take (n + 1) b.bytes) in
    rw (one_more, positive, more, longer) refl

read_less :
    (n : ℕ) (b : Body)
    → n + 1 < int64_half
    → leb (n + 1) (length b.bytes) ≡ false
    → read_limited n (some b) ≡ check_length n (at_end b.bytes b.fault)
unfolding read_limited read_all add64
read_less n b h less =
    let one_more : (n + 1) % int64_mod ≡ n + 1 = omega (arith, h) in
    let positive : le_zero (n + 1) ≡ false = ground (arith, h) in rw (one_more, positive, less) refl

at_end_iff :
    (n : ℕ) (s : Bytes) (f : Option Cause) (body : Bytes)
    → n + 1 < int64_half
    → length s ≤ n
    → (check_length n (at_end s f) ≡ within body) ↔ ((f ≡ none) × (s ≡ body))
unfolding check_length at_end
at_end_iff n s (some e) body h l = (λ p. cc, λ p. cc)
at_end_iff n s none body h l =
    let short : lt64 n (length s) ≡ false = ground (arith, h, l) in
    (λ p. (refl, same_body (rw short at p)), λ (e, p). rw (short, p) refl)

module _ (n : ℕ) (b : Body) (body : Bytes) (h : n + 1 < int64_half) where
  abbrev IsRead : Body → Type 0
  IsRead x = (x.fault ≡ none) × (x.bytes ≡ body) × (length x.bytes ≤ n)

  IsRead-iff : (read_limited n (some b) ≡ within body) ↔ IsRead b
  IsRead-iff = elim (Bool-cases (leb (n + 1) (length b.bytes))) [
    | inl more ↦ (
      λ e. absurd (refused-ne (sym (read_more n b h more) ∙ e)),
      λ (f, s, l). absurd (ground (arith, more, l)),
    )
    | inr less ↦
        let short : length b.bytes ≤ n = ground (arith, less) in
        let (to, from) = at_end_iff n b.bytes b.fault body h short in
        (
          λ e. let (f, s) = to (sym (read_less n b h less) ∙ e) in (f, s, short),
          λ (f, s, l). read_less n b h less ∙ from (f, s),
        )
  ]
    where
      refused-ne : refused too_large ≡ within body → ⊥
      refused-ne e = cc

pub read_limited_iff :
    (n : ℕ) (o : Option Body) (body : Bytes)
    → n + 1 < int64_half
    → (read_limited n o ≡ within body)
      ↔ ((b : Body) × (o ≡ some b) × (b.fault ≡ none) × (b.bytes ≡ body) × (length b.bytes ≤ n))
unfolding read_limited
read_limited_iff n none body h = (λ e. cc, λ (b, e, f, s, l). cc)
read_limited_iff n (some b) body h = (
  λ e. let (f, s, l) = (IsRead-iff n b body h).0 e in (b, refl, f, s, l),
  λ (c, e, f, s, l). (IsRead-iff n b body h).1 (subst (IsRead n b body h) (sym (same e)) (f, s, l)),
)
  where
    same : {a b : Body} → some a ≡ some b → a ≡ b
    same e = cc
