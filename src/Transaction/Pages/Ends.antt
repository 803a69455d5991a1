-- ===== src/Transaction/Pages/Ends.antt =====
-- The walk ends where the gateway counts its rows.
use atome_fin_go_sdk.Base.{
  ℕ, zero, suc, ◌+◌, ◌*◌, ◌≤◌, ◌<◌, ◌≡◌, ◌≢◌, Option, none, some, ◌⊎◌, inl, inr, Bool-cases,
  Option-cases, length-append, arith, refl, int64_half, false,
}
use atome_fin_go_sdk.Errors.{Cause, Error, untyped}
use atome_fin_go_sdk.Transaction.Types.{
  TransactionsParams, TransactionsResponse, TransactionsData, Paginator,
}
use atome_fin_go_sdk.Transaction.Pages.{
  Walked, complete, failed, pending, row_count, append_page, total_reached, last_page, next_params,
  with_page, with_reply, with_context, walk,
}

complete-ne : (d : TransactionsData) → complete d ≢ pending
complete-ne d h = cc

failed-ne : (d : TransactionsData) (e : Error) → failed d e ≢ pending
failed-ne d e h = cc

pub row_count-append_page :
    (out page : TransactionsData)
    → row_count (append_page out page) ≡ row_count out + row_count page
unfolding append_page
row_count-append_page out page = omega (
  arith,
  length-append out.payment_info page.payment_info,
  length-append out.refund_info page.refund_info,
  length-append out.repayment_info page.repayment_info,
)

-- A paginator with a positive total of at most `bound`.
abbrev pub CountsTo : ℕ → Option Paginator → Type 0
CountsTo bound o = (p : Paginator) × (o ≡ some p) × (0 < p.total_count) × (p.total_count ≤ bound)

-- After a page that is not the last, rows are missing and the page was full.
not_last :
    (bound count : ℕ) (out page : TransactionsData)
    → bound < int64_half
    → CountsTo bound page.paginator
    → last_page count out page ≡ false
    → (count ≤ row_count page) × (row_count out < bound)
unfolding last_page total_reached
not_last bound count out page small (p, q, low, high) h =
    let k = rw q at h in ground (arith, k, small, low, high)

module _ (ctx_error : ℕ → Option Cause)
    (fetch : ℕ → TransactionsParams → Error ⊎ TransactionsResponse) (bound : ℕ)
    (small : bound < int64_half)
    (counted : (n : ℕ) (cur : TransactionsParams) (reply : TransactionsResponse)
        (page : TransactionsData)
      → fetch n cur ≡ inr reply
      → reply.data_ ≡ some page
      → CountsTo bound page.paginator) where
  -- A round ends the walk, or leads to the next round after a page that is not the last.
  module _ (n : ℕ) (cur : TransactionsParams) (out : TransactionsData)
      (next : TransactionsData → Walked)
      (goes_on : (page : TransactionsData)
        → CountsTo bound page.paginator
        → last_page cur.count (append_page out page) page ≡ false
        → next (append_page out page) ≢ pending) where
    paged-ends :
        (reply : TransactionsResponse) (page : Option TransactionsData)
        → fetch n cur ≡ inr reply
        → reply.data_ ≡ page
        → with_page ctx_error fetch cur out page next ≢ pending
    unfolding with_page
    paged-ends reply none e q = complete-ne out
    paged-ends reply (some page) e q =
        elim (Bool-cases (last_page cur.count (append_page out page) page)) [
          | inl last ↦ rw last (complete-ne (append_page out page))
          | inr more ↦ rw more (goes_on page (counted n cur reply page e q) more)
        ]

    replied-ends :
        (r : Error ⊎ TransactionsResponse)
        → fetch n cur ≡ r
        → with_reply ctx_error fetch cur out r next ≢ pending
    unfolding with_reply
    replied-ends (inl e) q = failed-ne out e
    replied-ends (inr reply) q = paged-ends reply reply.data_ q refl

    round-ends : with_context ctx_error fetch n cur out (ctx_error n) next ≢ pending
    unfolding with_context
    round-ends = elim (Option-cases (ctx_error n)) [
      | inr (e, stop) ↦ rw stop (failed-ne out (untyped e))
      | inl alive ↦ rw alive (replied-ends (fetch n cur) refl)
    ]

  -- Where every page has a paginator with a positive total of at most `bound`, the walk ends within
  -- any number of rounds, at least one, whose full pages would reach the bound.
  pub walk-ends :
      (left n : ℕ) (cur : TransactionsParams) (out : TransactionsData)
      → 1 ≤ left
      → bound ≤ row_count out + left * cur.count
      → walk ctx_error fetch left n cur out ≢ pending
  unfolding walk next_params
  walk-ends zero n cur out some_left enough = absurd (omega (arith, some_left))
  walk-ends (suc left) n cur out some_left enough =
      round-ends n cur out (λ more. walk ctx_error fetch left (suc n) (next_params cur) more)
        (λ page total more.
          let gathered = append_page out page in
          let (full, missing) = not_last bound cur.count gathered page small total more in
          let reached : bound ≤ row_count gathered + left * cur.count =
            grind (arith, row_count-append_page out page, full, enough) in
          walk-ends left (suc n) (next_params cur) gathered (grind (arith, reached, missing))
            reached)
