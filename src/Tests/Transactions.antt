-- ===== src/Tests/Transactions.antt =====
-- atomefin/transaction/transaction.go: a ledger of three rows that is read by pages of two.
use mathlib.Core.Sum.{inl-ne-inr}
use atome_fin_go_sdk.Base.{
  ◌≤◌, add64, Option-cases, subst, [], ◌∷◌, ℕ, ◌+◌, ◌*◌, ◌<◌, ◌≡◌, ◌≢◌, refl, sym, ap, ◌∙◌, none,
  some, List, ◌⊎◌, inl, inr, Bytes, codes, leb, false, arith, int64_half,
}
use atome_fin_go_sdk.Errors.{Cause, Error, plain_cause}
use atome_fin_go_sdk.Io.{read_all}
use atome_fin_go_sdk.Service.{checked, get_call, decode_response, positive_or}
use atome_fin_go_sdk.Client.Exchange.{World, answered, dispatch_attempt, read_and_close}
use atome_fin_go_sdk.Client.Dispatch.{do_signed_get, sign_and_dispatch, retry_loop}
use atome_fin_go_sdk.Transaction.Query.{Has, HasNumber, build_transactions_query_lem}
use atome_fin_go_sdk.Transaction.{
  transactions, build_transactions_query, validate_transactions_params,
}
use atome_fin_go_sdk.Transaction.Types.{TransactionsParams, TransactionsResponse, TransactionsData}
use atome_fin_go_sdk.Transaction.Pages.{complete, pending, first_params, transactions_all}
use atome_fin_go_sdk.Transaction.Pages.Ends.{CountsTo}
use atome_fin_go_sdk.Transaction.Pages.Ledger.{
  Entry, a_payment, a_refund, payments, refunds, repayments, page_at,
}
use atome_fin_go_sdk.Transaction.Pages.Complete.{transactions_all-complete, transactions_all-ends}
use atome_fin_go_sdk.Tests.Requests.{client}

abbrev payment_row : Bytes → Entry
payment_row id = a_payment (record {
  payment_request_id = id;
  order_id = id;
  order_type = codes "TRANSPORT";
  total_tenor = 1;
  create_time = 0;
  sub_orders = [];
})

abbrev refund_row : Entry
refund_row = a_refund (record {
  refund_request_id = codes "r";
  payment_request_id = codes "p";
  refund_amount = 5;
  refund_discount_amount = 0;
  waived_interest_amount = 0;
  overpaid_amount_change = 0;
  available_credit_change = 0;
  late_fee_amount_change = 0;
  refund_type = codes "NORMAL";
  create_time = 0;
  sub_orders = [];
})

abbrev ledger : List Entry
ledger = payment_row (codes "p") ∷ refund_row ∷ payment_row (codes "q") ∷ []

-- The gateway answers round `n` with the number of the round, which decodes to the page.
abbrev gateway : ℕ → World
gateway n = record {
  sign = λ s. inr (codes "sig");
  build_error = λ n. none;
  ctx_error = λ n. none;
  sleep_error = λ n. none;
  reply = λ attempt req. answered 200 [] (record { bytes = n ∷ []; fault = none });
}

abbrev response_of : ℕ → TransactionsResponse
response_of n = record {
  code = codes "SUCCESS";
  message = [];
  data_ = some (page_at (codes "IDR") ledger (1 + n * 2) 2);
}

abbrev decode : Bytes → Cause ⊎ TransactionsResponse
decode [] = inl (plain_cause "empty")
decode (n ∷ s) = inr (response_of n)

abbrev params : TransactionsParams
params = record {
  external_reference_uid = codes "u";
  transaction_type = codes "PAYMENT";
  start_date = codes "20260101";
  end_date = codes "20260131";
  start = 0;
  count = 2;
}

called :
    (n : ℕ) (cur : TransactionsParams)
    → validate_transactions_params cur ≡ none
    → (transactions client (gateway n) [] decode (some cur)).0 ≡ inr (response_of n)
unfolding transactions checked get_call decode_response do_signed_get sign_and_dispatch retry_loop
    dispatch_attempt read_and_close read_all add64
called n cur ok = rw ok refl

serves :
    (n start : ℕ)
    → start ≡ 1 + n * 2
    → start < int64_half
    → (transactions client
        (gateway n)
        []
        decode
        (some (record (first_params (some params)) { start = start }))).0
      ≡ inr (record {
        code = codes "SUCCESS";
        message = [];
        data_ = some (page_at (codes "IDR") ledger start 2);
      })
unfolding first_params positive_or validate_transactions_params
serves n start at below =
    let natural : leb int64_half start ≡ false = ground (arith, below) in
    called n (record (first_params (some params)) { start = start }) (rw natural refl) ∙ rw at refl

transactions_all-complete_example :
    (d : TransactionsData) × (transactions_all client gateway [] decode (λ n. none) 4 (some params)
      ≡ complete d)
    × (d.payment_info ≡ payments ledger)
    × (d.refund_info ≡ refunds ledger)
    × (d.repayment_info ≡ repayments ledger)
unfolding first_params positive_or
transactions_all-complete_example =
    transactions_all-complete client gateway [] decode (λ n. none) (some params) (codes "SUCCESS")
      [] (codes "IDR") ledger 4 (omega arith) (λ n. refl) serves (omega arith)

refused :
    (n : ℕ) (cur : TransactionsParams) (e : Error)
    → validate_transactions_params cur ≡ some e
    → (transactions client (gateway n) [] decode (some cur)).0 ≡ inl e
unfolding transactions checked
refused n cur e bad = rw bad refl

payload-of_some : {a b : TransactionsData} → some a ≡ some b → a ≡ b
payload-of_some h = cc

reply-of_inr :
    {a b : TransactionsResponse} → ◌≡◌ {A = Error ⊎ TransactionsResponse} (inr a) (inr b) → a ≡ b
reply-of_inr h = cc

counts :
    (n : ℕ) (cur : TransactionsParams) (reply : TransactionsResponse) (page : TransactionsData)
    → (transactions client (gateway n) [] decode (some cur)).0 ≡ inr reply
    → reply.data_ ≡ some page
    → CountsTo 3 page.paginator
counts n cur reply page q e = elim (Option-cases (validate_transactions_params cur)) [
  | inr (bad, refusal) ↦ absurd (inl-ne-inr (sym (refused n cur bad refusal) ∙ q))
  | inl ok ↦
      let same : response_of n ≡ reply = reply-of_inr (sym (called n cur ok) ∙ q) in
      let received : page_at (codes "IDR") ledger (1 + n * 2) 2 ≡ page =
        payload-of_some (ap (λ r. r.data_) same ∙ e) in
      subst (λ d. CountsTo 3 d.paginator) received (_, refl, omega arith, omega arith)
]

transactions_all-ends_example :
    transactions_all client gateway [] decode (λ n. none) 2 (some params) ≢ pending
unfolding first_params positive_or
transactions_all-ends_example =
    transactions_all-ends client gateway [] decode (λ n. none) (some params) 3 2 (omega arith)
      counts (omega arith) (omega arith)

valid : validate_transactions_params params ≡ none
unfolding validate_transactions_params
valid = refl

build_transactions_query_lem_example :
    HasNumber (build_transactions_query params) (codes "start") 1
    × HasNumber (build_transactions_query params) (codes "count") 2
    × (2 ≤ 50)
    × Has (build_transactions_query params) (codes "externalReferenceUid") (codes "u")
    × Has (build_transactions_query params) (codes "transactionType") (codes "PAYMENT")
    × Has (build_transactions_query params) (codes "startDate") (codes "20260101")
    × Has (build_transactions_query params) (codes "endDate") (codes "20260131")
build_transactions_query_lem_example = build_transactions_query_lem params valid
