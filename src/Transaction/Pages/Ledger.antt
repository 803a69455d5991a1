-- ===== src/Transaction/Pages/Ledger.antt =====
-- A gateway that serves the pages of a ledger, and what the walk gathers from it.
use Prim.Native.Nat.{min}
use mathlib.Core.List.{append-nil, append_assoc}
use atome_fin_go_sdk.Base.{
  int64_mod, add64, subst, [], ◌∷◌, ◌++◌, ℕ, zero, suc, ◌+◌, ◌-◌, ◌≤◌, ◌<◌, ◌%◌, ◌*◌, ◌≡◌, refl,
  sym, ap, ◌∙◌, Option, none, some, List, ◌⊎◌, inl, inr, Bytes, take, drop, length, length-take,
  length-drop, take-append-drop, drop-drop, drop-of_short, arith, Bool-cases, true, false,
  IsPositive, int64_half,
}
use atome_fin_go_sdk.Errors.{Cause, Error}
use atome_fin_go_sdk.Transaction.Types.{
  TradePaymentInfo, TradeRefundInfo, TradeRepaymentInfo, TransactionsParams, TransactionsResponse,
  TransactionsData, Paginator,
}
use atome_fin_go_sdk.Transaction.Pages.{
  Walked, complete, row_count, append_page, total_reached, last_page, next_params, with_page,
  with_reply, with_context, walk,
}
use atome_fin_go_sdk.Transaction.Pages.Ends.{row_count-append_page}

-- One row of the ledger.
pub data Entry : Type 0 where
  a_payment : TradePaymentInfo → Entry
  a_refund : TradeRefundInfo → Entry
  a_repayment : TradeRepaymentInfo → Entry

unfoldable pub payments : List Entry → List TradePaymentInfo
payments [] = []
payments (a_payment p ∷ es) = p ∷ payments es
payments (a_refund r ∷ es) = payments es
payments (a_repayment r ∷ es) = payments es

unfoldable pub refunds : List Entry → List TradeRefundInfo
refunds [] = []
refunds (a_payment p ∷ es) = refunds es
refunds (a_refund r ∷ es) = r ∷ refunds es
refunds (a_repayment r ∷ es) = refunds es

unfoldable pub repayments : List Entry → List TradeRepaymentInfo
repayments [] = []
repayments (a_payment p ∷ es) = repayments es
repayments (a_refund r ∷ es) = repayments es
repayments (a_repayment r ∷ es) = r ∷ repayments es

-- A payload with the rows grouped by kind, in the ledger's order.
abbrev pub grouped : Bytes → List Entry → Paginator → TransactionsData
grouped currency es p = record {
  currency = currency;
  payment_info = payments es;
  refund_info = refunds es;
  repayment_info = repayments es;
  paginator = some p;
}

-- The rows from a position, counted from 1.
abbrev pub rows_from : List Entry → ℕ → List Entry
rows_from ledger start = drop (start - 1) ledger

abbrev pub served : List Entry → (start count : ℕ) → Paginator
served ledger start count = record { start = start; count = count; total_count = length ledger }

abbrev pub page_at : Bytes → List Entry → (start count : ℕ) → TransactionsData
page_at currency ledger start count =
    grouped currency (take count (rows_from ledger start)) (served ledger start count)

payments-append : (es fs : List Entry) → payments (es ++ fs) ≡ payments es ++ payments fs
unfolding payments
payments-append [] fs = refl
payments-append (a_payment p ∷ es) fs = rw (payments-append es fs)
payments-append (a_refund r ∷ es) fs = payments-append es fs
payments-append (a_repayment r ∷ es) fs = payments-append es fs

refunds-append : (es fs : List Entry) → refunds (es ++ fs) ≡ refunds es ++ refunds fs
unfolding refunds
refunds-append [] fs = refl
refunds-append (a_payment p ∷ es) fs = refunds-append es fs
refunds-append (a_refund r ∷ es) fs = rw (refunds-append es fs)
refunds-append (a_repayment r ∷ es) fs = refunds-append es fs

repayments-append : (es fs : List Entry) → repayments (es ++ fs) ≡ repayments es ++ repayments fs
unfolding repayments
repayments-append [] fs = refl
repayments-append (a_payment p ∷ es) fs = repayments-append es fs
repayments-append (a_refund r ∷ es) fs = repayments-append es fs
repayments-append (a_repayment r ∷ es) fs = rw (repayments-append es fs)

row_count-grouped :
    (currency : Bytes) (es : List Entry) (p : Paginator)
    → row_count (grouped currency es p) ≡ length es
unfolding payments refunds repayments
row_count-grouped currency [] p = refl
row_count-grouped currency (a_payment a ∷ es) p = omega (arith, row_count-grouped currency es p)
row_count-grouped currency (a_refund a ∷ es) p = omega (arith, row_count-grouped currency es p)
row_count-grouped currency (a_repayment a ∷ es) p = omega (arith, row_count-grouped currency es p)

-- The payload `d` has the rows of `out` and then those of `es`.
pub record Extends (out : TransactionsData) (es : List Entry) (d : TransactionsData) : Type 0 where
  pub with_payments : d.payment_info ≡ out.payment_info ++ payments es
  pub with_refunds : d.refund_info ≡ out.refund_info ++ refunds es
  pub with_repayments : d.repayment_info ≡ out.repayment_info ++ repayments es

abbrev pub Gathers : TransactionsData → List Entry → Walked → Type 0
Gathers out es w = (d : TransactionsData) × (w ≡ complete d) × Extends out es d

append_page-Extends :
    (out : TransactionsData) (currency : Bytes) (es : List Entry) (p : Paginator)
    → Extends out es (append_page out (grouped currency es p))
unfolding append_page
append_page-Extends out currency es p = record {
  with_payments = refl;
  with_refunds = refl;
  with_repayments = refl;
}

append_trans : {A : Type 0} (o m d f g : List A) → m ≡ o ++ f → d ≡ m ++ g → d ≡ o ++ (f ++ g)
append_trans o m d f g h k = rw (k, h) (append_assoc o f g)

Extends-trans :
    (out middle d : TransactionsData) (es fs : List Entry)
    → Extends out es middle
    → Extends middle fs d
    → Extends out (es ++ fs) d
Extends-trans out middle d es fs h k = record {
  with_payments =
      rw (payments-append es fs) (append_trans _ _ _ _ _ h.with_payments k.with_payments);
  with_refunds = rw (refunds-append es fs) (append_trans _ _ _ _ _ h.with_refunds k.with_refunds);
  with_repayments =
      rw (repayments-append es fs) (append_trans _ _ _ _ _ h.with_repayments k.with_repayments);
}

module _ (ctx_error : ℕ → Option Cause)
    (fetch : ℕ → TransactionsParams → Error ⊎ TransactionsResponse) (code message currency : Bytes)
    (ledger : List Entry) (p : TransactionsParams) (positive : IsPositive p.count)
    (fits : length ledger + p.count < int64_half) (alive : (n : ℕ) → ctx_error n ≡ none)
    -- The gateway answers the request for each page of `p` with that page of the ledger.
    (serves : (n start : ℕ)
      → start ≡ p.start + n * p.count
      → start < int64_half
      → fetch n (record p { start = start })
        ≡ inr (record {
          code = code;
          message = message;
          data_ = some (page_at currency ledger start p.count);
        })) where
  module _ (start : ℕ) (from : 1 ≤ start) (out : TransactionsData)
      (sound : row_count out ≤ start - 1) where
    abbrev rest : List Entry
    rest = rows_from ledger start

    abbrev page : TransactionsData
    page = page_at currency ledger start p.count

    rows : row_count page ≡ min p.count (length ledger - (start - 1))
    rows =
        row_count-grouped currency (take p.count rest) (served ledger start p.count)
        ∙ length-take p.count rest
        ∙ ap (min p.count) (length-drop (start - 1) ledger)

    -- After the last page nothing is left.
    last-empty : last_page p.count (append_page out page) page ≡ true → drop p.count rest ≡ []
    unfolding last_page total_reached
    last-empty h = drop-of_short p.count rest (
        ground (
          arith,
          h,
          rows,
          sound,
          from,
          positive.0,
          positive.1,
          fits,
          row_count-append_page out page,
          length-drop (start - 1) ledger,
        ))

    -- After any other page the walk goes on where the page ended.
    more-full :
        last_page p.count (append_page out page) page ≡ false
        → p.count ≤ length ledger - (start - 1)
    unfolding last_page
    more-full h = ground (arith, h, rows)

    taken-whole : last_page p.count (append_page out page) page ≡ true → take p.count rest ≡ rest
    taken-whole h =
        sym (append-nil (take p.count rest))
        ∙ ap (λ es. take p.count rest ++ es) (sym (last-empty h))
        ∙ take-append-drop p.count rest

    page-Extends : Extends out (take p.count rest) (append_page out page)
    page-Extends =
        append_page-Extends out currency (take p.count rest) (served ledger start p.count)

    -- One round, where the next round gathers what the page leaves.
    round-Gathers :
        (n : ℕ) (next : TransactionsData → Walked)
        → start ≡ p.start + n * p.count
        → start < int64_half
        → (p.count ≤ length ledger - (start - 1)
            → Gathers (append_page out page) (drop p.count rest) (next (append_page out page)))
        → Gathers out rest
            (with_context ctx_error fetch n (record p { start = start }) out (ctx_error n) next)
    unfolding with_context with_reply with_page
    round-Gathers n next at below goes_on =
        rw (alive n, serves n start at below)
          (elim (Bool-cases (last_page p.count (append_page out page) page)) [
            | inl last ↦ rw last (
              append_page out page,
              refl,
              subst (λ es. Extends out es (append_page out page)) (taken-whole last) page-Extends,
            )
            | inr more ↦ rw more (
                let (d, done, ext) = goes_on (more-full more) in
                (
                  d,
                  done,
                  subst (λ es. Extends out es d) (take-append-drop p.count rest)
                      (Extends-trans out (append_page out page) d (take p.count rest)
                        (drop p.count rest) page-Extends ext),
                ))
          ])

    -- The next round starts where the page ends.
    next_params_lem :
        start < int64_half
        → next_params (record p { start = start }) ≡ record p { start = start + p.count }
    unfolding next_params add64
    next_params_lem below =
        let exact : (start + p.count) % int64_mod ≡ start + p.count =
          omega (arith, positive.1, below) in
        ap (λ s. record p { start = s }) exact

    next_rows : drop p.count rest ≡ rows_from ledger (start + p.count)
    next_rows =
        let sum : start - 1 + p.count ≡ start + p.count - 1 = omega (arith, from) in
        drop-drop p.count (start - 1) ledger ∙ ap (λ k. drop k ledger) sum

  pub walk-Gathers :
      (left n start : ℕ) (out : TransactionsData)
      → start ≡ p.start + n * p.count
      → 1 ≤ start
      → start < int64_half
      → row_count out ≤ start - 1
      → length ledger - (start - 1) < left
      → Gathers out
          (rows_from ledger start)
          (walk ctx_error fetch left n (record p { start = start }) out)
  unfolding walk
  walk-Gathers zero n start out at from below sound fuel = absurd (omega (arith, fuel))
  walk-Gathers (suc left) n start out at from below sound fuel =
      let page = page_at currency ledger start p.count in
      round-Gathers start from out sound n
        (λ more. walk ctx_error fetch left (suc n) (next_params (record p { start = start })) more)
        at below
        (λ full.
          rw (next_params_lem start from out sound below, next_rows start from out sound)
            (walk-Gathers left (suc n) (start + p.count) (append_page out page) (grind (arith, at))
              (omega (arith, from)) (omega (arith, full, fits, from))
              (omega
                (arith, row_count-append_page out page, rows start from out sound, sound, from))
              (omega (arith, full, fuel, from, positive.0))))
