-- ===== src/Callback/Handler/Checked.antt =====
-- When the partner's function is called, in terms of the checks of the verifier.
use atome_fin_go_sdk.Base.{
  Option-cases, if◌then◌else◌, ◌≡◌, ◌≢◌, ◌↔◌, ◌⊎◌, inl, inr, refl, sym, ap, ◌∙◌, true, false, not,
  Bool, Bool-cases, Option, none, some, is_empty, Bytes, bytes_eq, bytes_eq_iff, codes, String,
  arith,
}
use atome_fin_go_sdk.Callback.Verifier.{Verifier, verify, verify_hmac_time, ovo_hmac_canonical}
use atome_fin_go_sdk.Callback.Handler.{
  bad_signature, Inbound, Handled, Decoders, Limited, within, refused, limit_of, read_limited,
  write_ack, answer, deliver, verified, authenticated, with_body, handle,
}

module _ {ℓ} {Event : Type ℓ} (lib : Decoders Event) (v : Verifier) (fn : Event → Option String)
    (r : Inbound) where
  -- The request carries a valid signature of the body in the mode of the verifier: OVO.HMAC where a
  -- client id is configured, RSA2 where none is.
  abbrev pub IsAuthenticated : Bytes → Type 0
  IsAuthenticated body =
      ((is_empty v.hmac_client_id ≡ false)
        × (is_empty r.time ≡ false)
        × (r.client_id ≡ v.hmac_client_id)
        × (verify_hmac_time lib.parse_int v r.time ≡ true)
        × (verify v (ovo_hmac_canonical lib.raw64 r.client_id r.time r.method r.request_uri body)
              r.signature
            ≡ true))
      ⊎ ((is_empty v.hmac_client_id ≡ true) × (verify v body r.authorization ≡ true))

  -- A POST whose body is within the limit, authentic, and decodes to the event.
  abbrev pub IsAccepted : Event → Type ℓ
  IsAccepted event =
      (r.method ≡ codes "POST")
      × ((body : Bytes) × (read_limited (limit_of v) r.body ≡ within body)
          × IsAuthenticated body
          × (lib.decode body ≡ some event))

  signed : (c s : Bytes) → verify v c s ≡ true → is_empty s ≡ false
  unfolding verify
  signed c s h = ground arith

  verified-called :
      (c s body : Bytes) (event : Event)
      → ((verified lib v fn c s body).called ≡ some event)
        ↔ ((verify v c s ≡ true) × (lib.decode body ≡ some event))
  unfolding verified deliver write_ack answer
  verified-called c s body event = (to, from)
    where
      to :
          (verified lib v fn c s body).called ≡ some event
          → (verify v c s ≡ true) × (lib.decode body ≡ some event)
      to h = ground arith

      from :
          (verify v c s ≡ true) × (lib.decode body ≡ some event)
          → (verified lib v fn c s body).called ≡ some event
      from (p, q) = ground (arith, p, q)

  authenticated-IsAuthenticated :
      (body : Bytes) (event : Event)
      → (authenticated lib v fn r body).called ≡ some event
      → IsAuthenticated body × (lib.decode body ≡ some event)
  unfolding authenticated write_ack
  authenticated-IsAuthenticated body event h =
      let canonical = ovo_hmac_canonical lib.raw64 r.client_id r.time r.method r.request_uri body in
      elim (Bool-cases (is_empty v.hmac_client_id)) [
        | inl plain ↦
            let (p, d) = (verified-called body r.authorization body event).0 (ground arith) in
            (inr (plain, p), d)
        | inr hmac ↦
            let (p, d) = (verified-called canonical r.signature body event).0 (ground arith) in
            let same : bytes_eq r.client_id v.hmac_client_id ≡ true = ground arith in
            (
              inl (
                hmac,
                ground arith,
                (bytes_eq_iff r.client_id v.hmac_client_id).0 same,
                ground arith,
                p,
              ),
              d,
            )
      ]

  IsAuthenticated-authenticated :
      (body : Bytes) (event : Event)
      → IsAuthenticated body
      → lib.decode body ≡ some event
      → (authenticated lib v fn r body).called ≡ some event
  unfolding authenticated write_ack
  IsAuthenticated-authenticated body event (inl (hmac, timed, same, fresh, p)) d =
      let canonical = ovo_hmac_canonical lib.raw64 r.client_id r.time r.method r.request_uri body in
      let called = (verified-called canonical r.signature body event).1 (p, d) in
      let equal = (bytes_eq_iff r.client_id v.hmac_client_id).1 same in
      let there = signed canonical r.signature p in rw (hmac, there, timed, equal, fresh) called
  IsAuthenticated-authenticated body event (inr (plain, p)) d =
      let called = (verified-called body r.authorization body event).1 (p, d) in
      let there = signed body r.authorization p in rw (plain, there) called

  with_body-IsAuthenticated :
      (limited : Limited) (event : Event)
      → (with_body lib v fn r limited).called ≡ some event
      → (body : Bytes) × (limited ≡ within body)
        × IsAuthenticated body
        × (lib.decode body ≡ some event)
  unfolding with_body write_ack
  with_body-IsAuthenticated (within body) event h =
      let (a, d) = authenticated-IsAuthenticated body event h in (body, refl, a, d)
  with_body-IsAuthenticated (refused reason) event h = cc

  handle-IsAccepted :
      (event : Event) → (handle lib (some v) (some fn) r).called ≡ some event → IsAccepted event
  unfolding handle write_ack
  handle-IsAccepted event h = elim (Bool-cases (bytes_eq r.method (codes "POST"))) [
    | inl post ↦ (
      (bytes_eq_iff r.method (codes "POST")).0 post,
      with_body-IsAuthenticated (read_limited (limit_of v) r.body) event (sym (rw post refl) ∙ h),
    )
    | inr other ↦ absurd (ground arith)
  ]

  IsAccepted-handle :
      (event : Event) → IsAccepted event → (handle lib (some v) (some fn) r).called ≡ some event
  unfolding handle with_body
  IsAccepted-handle event (post, (body, limited, a, d)) =
      let is_post = (bytes_eq_iff r.method (codes "POST")).1 post in
      rw (is_post, limited) (IsAuthenticated-authenticated body event a d)

  -- With a verifier and a function given, the function is called with an event exactly when the
  -- request is a POST whose body is within the limit, authentic, and decodes to that event.
  pub handle-called-IsAccepted :
      (event : Event) → ((handle lib (some v) (some fn) r).called ≡ some event) ↔ IsAccepted event
  handle-called-IsAccepted event = (handle-IsAccepted event, IsAccepted-handle event)

  -- A call and a status that fit: no call and no 200, or the answer that the function's result asks.
  abbrev Fits : Handled Event → Type ℓ
  Fits h =
      ((h.called ≡ none) × (h.status ≢ 200))
      ⊎ ((event : Event) × (h.called ≡ some event) × ((fn event ≡ none) ↔ (h.status ≡ 200)))

  answer-Fits : (event : Event) → Fits (answer lib event (fn event))
  unfolding answer
  answer-Fits event = elim (Option-cases (fn event)) [
    | inl e ↦ rw e (inr (event, refl, (λ p. refl, λ p. e)))
    | inr (reason, e) ↦ rw e (inr (event, refl, (λ p. cc, λ p. absurd (omega arith))))
  ]

  deliver-Fits : (e : Option Event) → Fits (deliver lib fn e)
  unfolding deliver write_ack
  deliver-Fits none = inl (refl, λ p. omega arith)
  deliver-Fits (some event) = answer-Fits event

  verified-Fits : (c s body : Bytes) → Fits (verified lib v fn c s body)
  unfolding verified write_ack
  verified-Fits c s body = elim (Bool-cases (verify v c s)) [
    | inl ok ↦ rw ok (deliver-Fits (lib.decode body))
    | inr bad ↦ rw bad (inl (refl, λ p. omega arith))
  ]

  -- Any guard of the handler answers 401 or goes on.
  guarded-Fits :
      (b : Bool) (h : Handled Event)
      → Fits h
      → Fits (if b then write_ack lib 401 bad_signature else h)
  unfolding write_ack
  guarded-Fits true h f = inl (refl, λ p. omega arith)
  guarded-Fits false h f = f

  authenticated-Fits : (body : Bytes) → Fits (authenticated lib v fn r body)
  unfolding authenticated
  authenticated-Fits body = elim (Bool-cases (is_empty v.hmac_client_id)) [
    | inl plain ↦
        rw plain
          (guarded-Fits (is_empty r.authorization) _ (verified-Fits body r.authorization body))
    | inr hmac ↦ rw hmac (
        guarded-Fits _ _ (
          guarded-Fits (not (verify_hmac_time lib.parse_int v r.time)) _
            (verified-Fits _ r.signature body)))
  ]

  with_body-Fits : (limited : Limited) → Fits (with_body lib v fn r limited)
  unfolding with_body write_ack
  with_body-Fits (within body) = authenticated-Fits body
  with_body-Fits (refused reason) = inl (refl, λ p. omega arith)

  handle-Fits : Fits (handle lib (some v) (some fn) r)
  unfolding handle write_ack
  handle-Fits = elim (Bool-cases (bytes_eq r.method (codes "POST"))) [
    | inl post ↦ rw post (with_body-Fits (read_limited (limit_of v) r.body))
    | inr other ↦ rw other (inl (refl, λ p. omega arith))
  ]

  -- With a verifier and a function given, the response is 200 exactly when there is an event that
  -- the request delivers (a POST whose body is within the limit, authentic, and decodes to it) and
  -- the function reports no error for it.
  pub handle-status-IsAccepted :
      ((handle lib (some v) (some fn) r).status ≡ 200)
      ↔ ((event : Event) × IsAccepted event × (fn event ≡ none))
  handle-status-IsAccepted = (to handle-Fits, from handle-Fits)
    where
      to :
          Fits (handle lib (some v) (some fn) r)
          → (handle lib (some v) (some fn) r).status ≡ 200
          → (event : Event) × IsAccepted event × (fn event ≡ none)
      to (inl (p, q)) h = absurd (q h)
      to (inr (event, p, q)) h = (event, handle-IsAccepted event p, q.1 h)

      from :
          Fits (handle lib (some v) (some fn) r)
          → (event : Event) × IsAccepted event × (fn event ≡ none)
          → (handle lib (some v) (some fn) r).status ≡ 200
      from (inl (p, q)) (event, d, n) = cc (p, IsAccepted-handle event d)
      from (inr (event, p, q)) (called, d, n) =
          let same : event ≡ called = cc (p, IsAccepted-handle called d) in q.0 (ap fn same ∙ n)
