-- ===== src/Callback/Handler/Delivery.antt =====
-- A delivery, from what was received, without the checks of the handler; and what each check says of
-- it.
use atome_fin_go_sdk.Base.{
  [], ◌∷◌, ◌++◌, ℕ, ◌+◌, ◌/◌, ◌≤◌, ◌<◌, ◌≡◌, ◌≢◌, ◌↔◌, ◌⊎◌, inl, inr, refl, sym, true, false, Bool,
  Bool-cases, Option, none, some, List, is_empty, length, Bytes, codes, arith, IsPositive, bias,
  le_zero, int64_half, add64, lt64, subst,
}
use atome_fin_go_sdk.Io.{Body}
use atome_fin_go_sdk.Callback.Verifier.{
  Verifier, verify, any_verifies, verify_hmac_time, time_checked, in_window, milliseconds,
  not_negative, sub64,
}
use atome_fin_go_sdk.Callback.Handler.{Inbound, Decoders, limit_of}

-- One of the verifiers accepts the signature of the text.
abbrev pub SomeAccepts : List (Bytes → Bytes → Bool) → (text signature : Bytes) → Type 0
SomeAccepts [] text signature = ⊥
SomeAccepts (f ∷ fs) text signature = (f text signature ≡ true) ⊎ SomeAccepts fs text signature

abbrev pub IsSigned : Verifier → (text signature : Bytes) → Type 0
IsSigned v text signature = (signature ≢ []) × SomeAccepts v.verifiers text signature

-- The configured limit, or 1 MiB where none is.
abbrev pub InLimit : Verifier → ℕ → Type 0
InLimit v n =
    (IsPositive v.body_limit × (n ≤ v.body_limit)) ⊎ (¬ IsPositive v.body_limit × (n ≤ 1048576))

-- The time is a number within the window around the clock, in milliseconds, or no window is
-- configured. `bias` orders int64 patterns as signed numbers.
abbrev pub IsFresh : (parse_int : Bytes → Option ℕ) → Verifier → Bytes → Type 0
IsFresh parse_int v time =
    (¬ IsPositive v.hmac_clock_skew)
    ⊎ (IsPositive v.hmac_clock_skew
        × ((t : ℕ) × (parse_int time ≡ some t)
            × (bias t ≤ bias v.now_ms + v.hmac_clock_skew / 1000000)
            × (bias v.now_ms ≤ bias t + v.hmac_clock_skew / 1000000)))

module _ {ℓ} {Event : Type ℓ} (lib : Decoders Event) (v : Verifier) (r : Inbound) where
  -- The whole body arrived, and is within the limit.
  abbrev pub IsBody : Bytes → Type 0
  IsBody body =
      (b : Body) × (r.body ≡ some b) × (b.fault ≡ none) × (b.bytes ≡ body) × InLimit v (length body)

  -- The request carries a valid signature of the body in the mode of the verifier: OVO.HMAC over
  -- the client id, time, method, URI and body where a client id is configured, RSA2 over the body
  -- where none is.
  abbrev pub IsAuthentic : Bytes → Type 0
  IsAuthentic body =
      ((v.hmac_client_id ≢ [])
        × (r.time ≢ [])
        × (r.client_id ≡ v.hmac_client_id)
        × IsFresh lib.parse_int v r.time
        × IsSigned v (r.client_id ++ r.time ++ r.method ++ b' ' ∷ r.request_uri ++ lib.raw64 body)
            r.signature)
      ⊎ ((v.hmac_client_id ≡ []) × IsSigned v body r.authorization)

  -- A POST whose body is within the limit, authentic, and decodes to the event.
  abbrev pub IsDelivery : Event → Type ℓ
  IsDelivery event =
      (r.method ≡ codes "POST")
      × ((body : Bytes) × IsBody body × IsAuthentic body × (lib.decode body ≡ some event))

SomeAccepts-iff :
    (fs : List (Bytes → Bytes → Bool)) (c s : Bytes)
    → (any_verifies fs c s ≡ true) ↔ SomeAccepts fs c s
unfolding any_verifies
SomeAccepts-iff [] c s = (λ h. cc, λ h. absurd h)
SomeAccepts-iff (f ∷ fs) c s = elim (Bool-cases (f c s)) [
  | inl accepted ↦ (λ h. inl accepted, λ h. rw accepted refl)
  | inr refusal ↦
      let (to, from) = SomeAccepts-iff fs c s in
      (λ h. inr (to (rw refusal at h)), λ h. rw refusal (from (other refusal h)))
]
  where
    other : f c s ≡ false → (f c s ≡ true) ⊎ SomeAccepts fs c s → SomeAccepts fs c s
    other refusal (inl accepted) = cc
    other refusal (inr more) = more

pub empty_iff : (s : Bytes) → (is_empty s ≡ true) ↔ (s ≡ [])
empty_iff [] = (λ h. refl, λ h. refl)
empty_iff (c ∷ s) = (λ h. cc, λ h. cc)

pub nonempty_iff : (s : Bytes) → (is_empty s ≡ false) ↔ (s ≢ [])
nonempty_iff [] = (λ h. cc, λ h. absurd (h refl))
nonempty_iff (c ∷ s) = (λ h e. cc, λ h. refl)

pub verify_iff : (v : Verifier) (c s : Bytes) → (verify v c s ≡ true) ↔ IsSigned v c s
unfolding verify
verify_iff v c [] = (λ h. cc, λ h. absurd (h.0 refl))
verify_iff v c (x ∷ s) =
    let (to, from) = SomeAccepts-iff v.verifiers c (x ∷ s) in (λ h. (λ e. cc, to h), λ h. from h.1)

pub IsPositive-iff : (x : ℕ) → (le_zero x ≡ false) ↔ IsPositive x
IsPositive-iff x = (λ h. ground (arith, h), λ h. ground (arith, h.0, h.1))

pub not-IsPositive_iff : (x : ℕ) → (le_zero x ≡ true) ↔ (¬ IsPositive x)
not-IsPositive_iff x = (
  λ h p. absurd (ground (arith, h, p.0, p.1)),
  λ h. elim (Bool-cases (le_zero x)) [ inl e ↦ e | inr e ↦ absurd (h ((IsPositive-iff x).0 e)) ],
)

pub in_window_iff :
    (t now s : ℕ)
    → now < 4611686018427387904
    → s < 9223372036854775
    → (in_window t now s ≡ true) ↔ ((bias t ≤ bias now + s) × (bias now ≤ bias t + s))
unfolding in_window add64 sub64
in_window_iff t now s h k =
    (λ e. (ground (arith, e), ground (arith, e)), λ (a, b). ground (arith, a, b))

module _ (v : Verifier) where
  pub limit_iff : (n : ℕ) → (n ≤ limit_of v) ↔ InLimit v n
  limit_iff n = elim (Bool-cases (le_zero v.body_limit)) [
    | inl unset ↦ (
      λ h. inr ((not-IsPositive_iff v.body_limit).0 unset, rw unset at h),
      λ h. rw unset (default (other unset h)),
    )
    | inr set ↦ (
      λ h. inl ((IsPositive-iff v.body_limit).0 set, rw set at h),
      λ h. rw set (given ((IsPositive-iff v.body_limit).0 set) h),
    )
  ]
    where
      other : le_zero v.body_limit ≡ true → InLimit v n → ¬ IsPositive v.body_limit × (n ≤ 1048576)
      other unset (inl (p, h)) = absurd ((not-IsPositive_iff v.body_limit).0 unset p)
      other unset (inr h) = h

      default : ¬ IsPositive v.body_limit × (n ≤ 1048576) → n ≤ 1048576
      default (p, h) = h

      given : IsPositive v.body_limit → InLimit v n → n ≤ v.body_limit
      given p (inl (q, h)) = h
      given p (inr (q, h)) = absurd (q p)

  pub limit_room : v.body_limit ≢ 9223372036854775807 → limit_of v + 1 < int64_half
  limit_room room = elim (Bool-cases (le_zero v.body_limit)) [
    | inl unset ↦ rw unset (omega arith)
    | inr set ↦ let p = (IsPositive-iff v.body_limit).0 set in rw set (omega (arith, p.1, room))
  ]

  module _ (clock : v.now_ms < 4611686018427387904) where
    time_checked_iff :
        (o : Option ℕ)
        → IsPositive v.hmac_clock_skew
        → (time_checked v o ≡ true) ↔ (
            (t : ℕ) × (o ≡ some t)
            × (bias t ≤ bias v.now_ms + v.hmac_clock_skew / 1000000)
            × (bias v.now_ms ≤ bias t + v.hmac_clock_skew / 1000000))
    unfolding time_checked not_negative milliseconds
    time_checked_iff none p = (λ h. cc, λ (t, e, a, b). cc)
    time_checked_iff (some t) p =
        let small : v.hmac_clock_skew / 1000000 < 9223372036854775 = omega (arith, p.1) in
        let kept : lt64 (v.hmac_clock_skew / 1000000) 0 ≡ false = ground (arith, small) in
        let (to, from) = in_window_iff t v.now_ms (v.hmac_clock_skew / 1000000) clock small in
        (
          λ h. let (a, b) = to (rw kept at h) in (t, refl, a, b),
          λ (u, e, a, b). rw kept (
              from (
                subst
                  (λ x.
                    (bias x ≤ bias v.now_ms + v.hmac_clock_skew / 1000000)
                    × (bias v.now_ms ≤ bias x + v.hmac_clock_skew / 1000000))
                  (sym (some-eq e)) (a, b))),
        )
      where
        some-eq : {a b : ℕ} → some a ≡ some b → a ≡ b
        some-eq e = cc

    pub IsFresh-iff :
        (parse_int : Bytes → Option ℕ) (time : Bytes)
        → (verify_hmac_time parse_int v time ≡ true) ↔ IsFresh parse_int v time
    unfolding verify_hmac_time
    IsFresh-iff parse_int time = elim (Bool-cases (le_zero v.hmac_clock_skew)) [
      | inl off ↦ (λ h. inl ((not-IsPositive_iff v.hmac_clock_skew).0 off), λ h. rw off refl)
      | inr on ↦
          let p = (IsPositive-iff v.hmac_clock_skew).0 on in
          let (to, from) = time_checked_iff (parse_int time) p in
          (λ h. inr (p, to (rw on at h)), λ h. rw on (from (window p h)))
    ]
      where
        window :
            IsPositive v.hmac_clock_skew
            → IsFresh parse_int v time
            → (t : ℕ) × (parse_int time ≡ some t)
              × (bias t ≤ bias v.now_ms + v.hmac_clock_skew / 1000000)
              × (bias v.now_ms ≤ bias t + v.hmac_clock_skew / 1000000)
        window p (inl h) = absurd (h p)
        window p (inr (q, h)) = h
