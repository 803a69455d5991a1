-- ===== src/Transaction/Query.antt =====
-- The query of GET /transactions.
use atome_fin_go_sdk.Base.{
  [], ◌∷◌, ℕ, ◌≤◌, ◌<◌, ◌≡◌, refl, none, some, false, Bytes, codes, is_empty, get, put, bytes_eq,
  numeral, itoa, numeral-itoa, ◌==◌, if◌then◌else◌, arith, int64_half,
}
use atome_fin_go_sdk.Service.{positive_or}
use atome_fin_go_sdk.Sign.Canonical.{Values}
use atome_fin_go_sdk.Transaction.{
  validate_transactions_params, set_nonempty, build_transactions_query,
}
use atome_fin_go_sdk.Transaction.Types.{TransactionsParams}

-- The rules of GET /transactions.
pub record Valid (p : TransactionsParams) : Type 0 where
  pub user : is_empty p.external_reference_uid ≡ false
  pub from : is_empty p.start_date ≡ false
  pub to : is_empty p.end_date ≡ false
  pub kind : is_empty p.transaction_type ≡ false
  pub start : p.start < int64_half
  pub count : p.count ≤ 50

validate-Valid : (p : TransactionsParams) → validate_transactions_params p ≡ none → Valid p
unfolding validate_transactions_params
validate-Valid p h = record {
  user = ground (arith, h);
  from = ground (arith, h);
  to = ground (arith, h);
  kind = ground (arith, h);
  start = ground (arith, h);
  count = ground (arith, h);
}

-- The key `k` of the query has the one value `v`.
abbrev pub Has : Values → Bytes → Bytes → Type 0
Has q k v = get k q ≡ some (v ∷ [])

-- The key `k` has one value, a numeral of `n`.
abbrev pub HasNumber : Values → Bytes → ℕ → Type 0
HasNumber q k n = (s : Bytes) × Has q k s × (numeral s ≡ n)

or_default : ℕ → ℕ → ℕ
or_default default n = if n == 0 then default else n

positive_or_natural :
    (default n : ℕ) → n < int64_half → positive_or default n ≡ or_default default n
unfolding positive_or or_default
positive_or_natural default n h = ground (arith, h)

fields :
    (p : TransactionsParams)
    → Valid p
    → Has (build_transactions_query p) (codes "start") (itoa (positive_or 1 p.start))
      × Has (build_transactions_query p) (codes "count") (itoa (positive_or 10 p.count))
      × Has (build_transactions_query p) (codes "externalReferenceUid") p.external_reference_uid
      × Has (build_transactions_query p) (codes "transactionType") p.transaction_type
      × Has (build_transactions_query p) (codes "startDate") p.start_date
      × Has (build_transactions_query p) (codes "endDate") p.end_date
unfolding build_transactions_query set_nonempty get put bytes_eq
fields p v = rw (v.user, v.kind, v.from, v.to) (refl, refl, refl, refl, refl, refl)

-- The query of valid parameters asks for the rows of the given user, kind and dates, from the given
-- start or from row 1 where none is given, and for the given number of rows or for 10 where none is
-- given, at most 50.
pub build_transactions_query_lem :
    (p : TransactionsParams)
    → validate_transactions_params p ≡ none
    → HasNumber (build_transactions_query p) (codes "start") (if p.start == 0 then 1 else p.start)
      × HasNumber
          (build_transactions_query p)
          (codes "count")
          (if p.count == 0 then 10 else p.count)
      × (p.count ≤ 50)
      × Has (build_transactions_query p) (codes "externalReferenceUid") p.external_reference_uid
      × Has (build_transactions_query p) (codes "transactionType") p.transaction_type
      × Has (build_transactions_query p) (codes "startDate") p.start_date
      × Has (build_transactions_query p) (codes "endDate") p.end_date
unfolding or_default
build_transactions_query_lem p h =
    let v = validate-Valid p h in
    let (start, count, user, kind, from, to) = fields p v in
    (
      (
        itoa (positive_or 1 p.start),
        start,
        rw (positive_or_natural 1 p.start v.start)
            (numeral-itoa (or_default 1 p.start) (ground (arith, v.start))),
      ),
      (
        itoa (positive_or 10 p.count),
        count,
        rw (positive_or_natural 10 p.count (omega (arith, v.count)))
            (numeral-itoa (or_default 10 p.count) (ground (arith, v.count))),
      ),
      v.count,
      user,
      kind,
      from,
      to,
    )
