-- ===== src/Transaction/Pages.antt =====
-- atomefin/transaction/transaction.go: TransactionsAll. A round of its loop asks for one page; the
-- context and the calls are parameters of the loop.
pub mod Ledger
pub mod Ends
pub mod Complete
use atome_fin_go_sdk.Base.{
  [], ◌∷◌, ◌++◌, ℕ, zero, suc, ◌+◌, Bool, true, false, not, ◌&&◌, ◌||◌, Option, none, some, List,
  ◌⊎◌, inl, inr, if◌then◌else◌, ltb, leb, length, le_zero, add64, Bytes, is_empty,
}
use atome_fin_go_sdk.Errors.{Cause, Error, untyped}
use atome_fin_go_sdk.Client.Exchange.{Client, World}
use atome_fin_go_sdk.Service.{positive_or}
use atome_fin_go_sdk.Transaction.{transactions, default_start, default_count, given}
use atome_fin_go_sdk.Transaction.Types.{
  TransactionsParams, TransactionsResponse, TransactionsData, Paginator,
}

-- What the loop returns; `pending` where it asks for a further round.
pub data Walked : Type 0 where
  complete : TransactionsData → Walked
  failed : TransactionsData → Error → Walked
  pending : Walked

abbrev pub nothing : TransactionsData
nothing = record {
  currency = [];
  payment_info = [];
  refund_info = [];
  repayment_info = [];
  paginator = none;
}

abbrev pub row_count : TransactionsData → ℕ
row_count d = length d.payment_info + length d.refund_info + length d.repayment_info

unfoldable pub append_page : TransactionsData → TransactionsData → TransactionsData
append_page out page = record {
  currency = if is_empty out.currency then page.currency else out.currency;
  payment_info = out.payment_info ++ page.payment_info;
  refund_info = out.refund_info ++ page.refund_info;
  repayment_info = out.repayment_info ++ page.repayment_info;
  paginator = page.paginator;
}

-- The paginator has a positive total, and the rows so far reach it.
unfoldable pub total_reached : ℕ → Option Paginator → Bool
total_reached rows none = false
total_reached rows (some p) = not (le_zero p.total_count) && leb p.total_count rows

-- The three tests that end the loop after a page.
unfoldable pub last_page : (count : ℕ) → (out page : TransactionsData) → Bool
last_page count out page =
    ltb (row_count page) count || total_reached (row_count out) page.paginator || le_zero count

unfoldable pub next_params : TransactionsParams → TransactionsParams
next_params cur = record cur { start = add64 cur.start cur.count }

-- `cur` at the start of the loop.
unfoldable pub first_params : Option TransactionsParams → TransactionsParams
first_params params =
    let p = given params in
    record p {
      start = positive_or default_start p.start;
      count = positive_or default_count p.count;
    }

module _ (ctx_error : ℕ → Option Cause)
    (fetch : ℕ → TransactionsParams → Error ⊎ TransactionsResponse) where
  -- A page that was received; `rest` is the loop from the next round.
  with_page :
      TransactionsParams
      → TransactionsData
      → Option TransactionsData
      → (TransactionsData → Walked)
      → Walked
  with_page cur out none rest = complete out
  with_page cur out (some page) rest =
      let gathered = append_page out page in
      let more = rest gathered in
      if last_page cur.count gathered page then complete gathered else more

  with_reply :
      TransactionsParams
      → TransactionsData
      → Error ⊎ TransactionsResponse
      → (TransactionsData → Walked)
      → Walked
  unfolding with_page
  with_reply cur out (inl e) rest = failed out e
  with_reply cur out (inr reply) rest = with_page cur out reply.data_ rest

  with_context :
      ℕ
      → TransactionsParams
      → TransactionsData
      → Option Cause
      → (TransactionsData → Walked)
      → Walked
  unfolding with_reply
  with_context n cur out none rest = with_reply cur out (fetch n cur) rest
  with_context n cur out (some e) rest = failed out (untyped e)

  -- The loop from round `n`; `left` is the number of rounds it may still make.
  unfoldable pub walk : (left n : ℕ) → TransactionsParams → TransactionsData → Walked
  unfolding with_context
  walk zero n cur out = pending
  walk (suc left) n cur out =
      with_context n cur out (ctx_error n) (λ more. walk left (suc n) (next_params cur) more)

-- `TransactionsAll` of a service that is configured: round `n` calls `Transactions` in the world
-- `w n`.
unfoldable pub transactions_all :
    Client
    → (w : ℕ → World) → (base_url : Bytes) → (Bytes → Cause ⊎ TransactionsResponse)
    → (ctx_error : ℕ → Option Cause) → (left : ℕ) → Option TransactionsParams
    → Walked
transactions_all c w base_url decode ctx_error left params =
    walk ctx_error (λ n cur. (transactions c (w n) base_url decode (some cur)).0) left 0
      (first_params params) nothing
