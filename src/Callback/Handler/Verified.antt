-- ===== src/Callback/Handler/Verified.antt =====
-- When the partner's function is called, and what it answers, in terms of what was received.
use atome_fin_go_sdk.Base.{◌<◌, ◌≡◌, ◌≢◌, ◌↔◌, inl, inr, Option, none, some, length, Bytes, String}
use atome_fin_go_sdk.Callback.Verifier.{Verifier, ovo_hmac_canonical}
use atome_fin_go_sdk.Callback.Handler.{Inbound, Decoders, within, limit_of, read_limited, handle}
use atome_fin_go_sdk.Callback.Handler.Reading.{read_limited_iff}
use atome_fin_go_sdk.Callback.Handler.Checked.{
  IsAuthenticated, IsAccepted, handle-called-IsAccepted, handle-status-IsAccepted,
}
use atome_fin_go_sdk.Callback.Handler.Delivery.{
  IsBody, IsAuthentic, IsDelivery, verify_iff, empty_iff, nonempty_iff, limit_iff, limit_room,
  IsFresh-iff,
}

module _ {ℓ} {Event : Type ℓ} (lib : Decoders Event) (v : Verifier) (fn : Event → Option String)
    (r : Inbound) (room : v.body_limit ≢ 9223372036854775807)
    (clock : v.now_ms < 4611686018427387904) where
  IsBody-iff :
      (body : Bytes) → (read_limited (limit_of v) r.body ≡ within body) ↔ IsBody lib v r body
  IsBody-iff body =
      let (to, from) = read_limited_iff (limit_of v) r.body body (limit_room v room) in
      (
        λ h. let (b, e, f, s, l) = to h in (b, e, f, s, (limit_iff v (length body)).0 (rw s at l)),
        λ (b, e, f, s, l). from (b, e, f, s, rw s ((limit_iff v (length body)).1 l)),
      )

  IsAuthentic-iff : (body : Bytes) → IsAuthenticated lib v fn r body ↔ IsAuthentic lib v r body
  unfolding ovo_hmac_canonical
  IsAuthentic-iff body = (to, from)
    where
      to : IsAuthenticated lib v fn r body → IsAuthentic lib v r body
      to (inl (hmac, timed, same, fresh, signed)) = inl (
        (nonempty_iff v.hmac_client_id).0 hmac,
        (nonempty_iff r.time).0 timed,
        same,
        (IsFresh-iff v clock lib.parse_int r.time).0 fresh,
        (verify_iff v _ r.signature).0 signed,
      )
      to (inr (plain, signed)) =
          inr ((empty_iff v.hmac_client_id).0 plain, (verify_iff v body r.authorization).0 signed)

      from : IsAuthentic lib v r body → IsAuthenticated lib v fn r body
      from (inl (hmac, timed, same, fresh, signed)) = inl (
        (nonempty_iff v.hmac_client_id).1 hmac,
        (nonempty_iff r.time).1 timed,
        same,
        (IsFresh-iff v clock lib.parse_int r.time).1 fresh,
        (verify_iff v _ r.signature).1 signed,
      )
      from (inr (plain, signed)) =
          inr ((empty_iff v.hmac_client_id).1 plain, (verify_iff v body r.authorization).1 signed)

  IsDelivery-iff : (event : Event) → IsAccepted lib v fn r event ↔ IsDelivery lib v r event
  IsDelivery-iff event = (
    λ (post, (body, read, a, d)).
        (post, (body, (IsBody-iff body).0 read, (IsAuthentic-iff body).0 a, d)),
    λ (post, (body, read, a, d)).
        (post, (body, (IsBody-iff body).1 read, (IsAuthentic-iff body).1 a, d)),
  )

  -- With a verifier and a function given, for a body limit other than the largest int64 and a clock
  -- between 0 and 2 ^ 62 ms, the function is called with an event exactly when the request is a POST
  -- whose whole body arrived, has at most the configured length (1 MiB where none is configured),
  -- decodes to that event and is signed: over the body, by a signature that one of the verifiers
  -- accepts, or, where a client id is configured, over the client id, time, method, URI and encoded
  -- body, with that client id and, where a window is configured, a time within it.
  pub handle-called_iff :
      (event : Event)
      → ((handle lib (some v) (some fn) r).called ≡ some event) ↔ IsDelivery lib v r event
  handle-called_iff event =
      let (to, from) = handle-called-IsAccepted lib v fn r event in
      (λ h. (IsDelivery-iff event).0 (to h), λ d. from ((IsDelivery-iff event).1 d))

  -- With a verifier and a function given, for a body limit other than the largest int64 and a clock
  -- between 0 and 2 ^ 62 ms, the response is 200 exactly when there is an event that the request
  -- delivers (a POST whose whole body arrived, is within the limit, decodes to the event and is
  -- signed, in OVO.HMAC mode with the client id and a time in the window) and the function reports no
  -- error for it.
  pub handle-status_iff :
      ((handle lib (some v) (some fn) r).status ≡ 200)
      ↔ ((event : Event) × IsDelivery lib v r event × (fn event ≡ none))
  handle-status_iff =
      let (to, from) = handle-status-IsAccepted lib v fn r in
      (
        λ h. let (event, d, n) = to h in (event, (IsDelivery-iff event).0 d, n),
        λ (event, d, n). from (event, (IsDelivery-iff event).1 d, n),
      )
