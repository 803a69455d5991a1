-- ===== src/Tests/Polls.antt =====
-- atomefin/payment/payment.go: polling that meets PROCESSING and then SUCCESS.
use atome_fin_go_sdk.Base.{
  All, ap, [], ◌∷◌, ℕ, ◌*◌, ◌≡◌, refl, Bool, none, some, List, Option, Bytes, codes, bytes_eq,
}
use atome_fin_go_sdk.Errors.{RejectionError}
use atome_fin_go_sdk.Payment.Polling.{Round, finished, poll}
use atome_fin_go_sdk.Payment.Polling.Sleeps.{IsCapped, poll-IsCapped}
use atome_fin_go_sdk.Payment.Polling.Rounds.{FinishedAt, poll-FinishedAt, poll-of_FinishedAt}

abbrev is_success : Bytes → Bool
is_success status = bytes_eq status (codes "SUCCESS")

abbrev never_rejected : Option Bytes → Option RejectionError
never_rejected reply = none

abbrev twice : ℕ → ℕ
twice delay = delay * 2

abbrev round_of : Bytes → Round Bytes
round_of status = record {
  before = none;
  reply = some status;
  error = none;
  after = none;
  interrupted = none;
}

abbrev rounds : List (Round Bytes)
rounds = round_of (codes "PROCESSING") ∷ round_of (codes "SUCCESS") ∷ []

poll_finishes :
    poll is_success never_rejected twice 8000 0 250 none rounds
    ≡ (finished (codes "SUCCESS"), 250 ∷ [])
unfolding poll bytes_eq
poll_finishes = refl

poll-FinishedAt_example : FinishedAt is_success never_rejected (codes "SUCCESS") rounds
poll-FinishedAt_example =
    poll-FinishedAt is_success never_rejected twice 8000 0 250 none rounds (codes "SUCCESS")
      (ap (λ p. p.0) poll_finishes)

poll-of_FinishedAt_example :
    (poll is_success never_rejected twice 8000 0 250 none rounds).0 ≡ finished (codes "SUCCESS")
poll-of_FinishedAt_example =
    poll-of_FinishedAt is_success never_rejected twice 8000 0 250 none rounds (codes "SUCCESS")
      (refl, (refl, tt))
      (poll-FinishedAt is_success never_rejected twice 8000 0 250 none rounds (codes "SUCCESS")
        (ap (λ p. p.0) poll_finishes))

poll-IsCapped_example :
    All (IsCapped 8000) (poll is_success never_rejected twice 8000 0 250 none rounds).1
poll-IsCapped_example = poll-IsCapped is_success never_rejected twice 8000 0 250 none rounds refl
