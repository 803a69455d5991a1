-- ===== src/Transaction/Pages/Complete.antt =====
-- TransactionsAll returns, and what it returns.
use atome_fin_go_sdk.Base.{
  ℕ, ◌+◌, ◌*◌, ◌≤◌, ◌<◌, ◌≡◌, ◌≢◌, Option, none, some, List, ◌⊎◌, inr, Bytes, length, IsPositive,
  int64_half, arith,
}
use atome_fin_go_sdk.Errors.{Cause}
use atome_fin_go_sdk.Client.Exchange.{Client, World}
use atome_fin_go_sdk.Service.{positive_or}
use atome_fin_go_sdk.Transaction.{given, transactions}
use atome_fin_go_sdk.Transaction.Types.{TransactionsParams, TransactionsResponse, TransactionsData}
use atome_fin_go_sdk.Transaction.Pages.{complete, pending, nothing, first_params, transactions_all}
use atome_fin_go_sdk.Transaction.Pages.Ends.{CountsTo, walk-ends}
use atome_fin_go_sdk.Transaction.Pages.Ledger.{
  Entry, payments, refunds, repayments, rows_from, page_at, walk-Gathers,
}

positive_or-IsPositive : (default n : ℕ) → IsPositive default → IsPositive (positive_or default n)
unfolding positive_or
positive_or-IsPositive default n h = ground (arith, h.0, h.1)

first_params-IsPositive :
    (params : Option TransactionsParams)
    → IsPositive (first_params params).start × IsPositive (first_params params).count
unfolding first_params
first_params-IsPositive params = (
  positive_or-IsPositive 1 (given params).start (ground arith),
  positive_or-IsPositive 10 (given params).count (ground arith),
)

module _ (c : Client) (w : ℕ → World) (base_url : Bytes)
    (decode : Bytes → Cause ⊎ TransactionsResponse) (ctx_error : ℕ → Option Cause)
    (params : Option TransactionsParams) where
  -- Where the context stays alive and the gateway answers the request for each page from the first
  -- one with that page of a ledger and the ledger's length (which leaves room for one more page in
  -- an int64), TransactionsAll returns, within one round more than the ledger has rows, without an
  -- error and with exactly the rows from the first page's start on, each kind in the ledger's order.
  pub transactions_all-complete :
      (code message currency : Bytes) (ledger : List Entry) (left : ℕ)
      → length ledger + (first_params params).count < int64_half
      → ((n : ℕ) → ctx_error n ≡ none)
      → ((n start : ℕ)
          → start ≡ (first_params params).start + n * (first_params params).count
          → start < int64_half
          → (transactions c
              (w n)
              base_url
              decode
              (some (record (first_params params) { start = start }))).0
            ≡ inr (record {
              code = code;
              message = message;
              data_ = some (page_at currency ledger start (first_params params).count);
            }))
      → length ledger < left
      → (d : TransactionsData) × (transactions_all c w base_url decode ctx_error left params
          ≡ complete d)
        × (d.payment_info ≡ payments (rows_from ledger (first_params params).start))
        × (d.refund_info ≡ refunds (rows_from ledger (first_params params).start))
        × (d.repayment_info ≡ repayments (rows_from ledger (first_params params).start))
  unfolding transactions_all
  transactions_all-complete code message currency ledger left fits alive serves fuel =
      let (start_positive, count_positive) = first_params-IsPositive params in
      let (d, done, ext) =
        walk-Gathers ctx_error (λ n cur. (transactions c (w n) base_url decode (some cur)).0) code
          message currency ledger (first_params params) count_positive fits alive serves left 0
          (first_params params).start nothing (omega arith) start_positive.0 start_positive.1
          (omega arith) (omega (arith, fuel)) in
      (d, done, ext.with_payments, ext.with_refunds, ext.with_repayments)

  -- Where every page that the gateway returns has a paginator with a positive total of at most
  -- `bound`, TransactionsAll returns (a payload or an error) within any number of rounds, at least
  -- one, whose full pages would reach the bound.
  pub transactions_all-ends :
      (bound left : ℕ)
      → bound < int64_half
      → ((n : ℕ) (cur : TransactionsParams) (reply : TransactionsResponse) (page : TransactionsData)
          → (transactions c (w n) base_url decode (some cur)).0 ≡ inr reply
          → reply.data_ ≡ some page
          → CountsTo bound page.paginator)
      → 1 ≤ left
      → bound ≤ left * (first_params params).count
      → transactions_all c w base_url decode ctx_error left params ≢ pending
  unfolding transactions_all
  transactions_all-ends bound left small counted some_left enough =
      walk-ends ctx_error (λ n cur. (transactions c (w n) base_url decode (some cur)).0) bound small
        counted left 0 (first_params params) nothing some_left (omega (arith, enough))
