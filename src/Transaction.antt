-- ===== src/Transaction.antt =====
-- atomefin/transaction/transaction.go: the transaction queries, and the walk over their pages.
pub mod Types
pub mod Details
pub mod Query
pub mod Pages
use atome_fin_go_sdk.Base.{
  Bool, [], ◌∷◌, ℕ, Option, none, some, List, not, ◌⊎◌, inl, if◌then◌else◌, ltb, leb, is_empty,
  le_zero, Bytes, codes, put, itoa, int64_half,
}
use atome_fin_go_sdk.Errors.{Cause, Error, invalid}
use atome_fin_go_sdk.Client.Exchange.{Client, World}
use atome_fin_go_sdk.Sign.Canonical.{Values}
use atome_fin_go_sdk.Payment.Checks.{Check, ◌>>◌, reject}
use atome_fin_go_sdk.Service.{Call, get_call, checked, positive_or}
use atome_fin_go_sdk.Transaction.Types.{TransactionsParams, TransactionsResponse}
use atome_fin_go_sdk.Transaction.Details.{TransactionDetailResponse}

abbrev pub default_start : ℕ
default_start = 1

abbrev pub default_count : ℕ
default_count = 10

abbrev pub max_count : ℕ
max_count = 50

-- `n < 0` on an int64 pattern, and `n > max_count` for one that is not negative.
abbrev pub below_zero : ℕ → Bool
below_zero n = leb int64_half n

unfoldable pub validate_transactions_params : TransactionsParams → Check
validate_transactions_params p = do
  reject (is_empty p.external_reference_uid) "externalReferenceUid" "required"
  reject (is_empty p.start_date) "startDate" "required"
  reject (is_empty p.end_date) "endDate" "required"
  reject (is_empty p.transaction_type) "transactionType" "required"
  reject (below_zero p.start) "start" "must be >= 0 (0 → default 1)"
  reject (below_zero p.count) "count" "must be >= 0 (0 → default 10)"
  reject (ltb max_count p.count) "count" "must be <= 50"

-- `q.Set(key, value)` where the value is not empty.
unfoldable pub set_nonempty : Bytes → Bytes → Values → Values
set_nonempty key value q = if is_empty value then q else put key (value ∷ []) q

unfoldable pub build_transactions_query : TransactionsParams → Values
unfolding set_nonempty
build_transactions_query p =
    let start = itoa (positive_or default_start p.start) in
    let count = itoa (positive_or default_count p.count) in
    let paged = put (codes "count") (count ∷ []) (put (codes "start") (start ∷ []) []) in
    let user = set_nonempty (codes "externalReferenceUid") p.external_reference_uid paged in
    let kind = set_nonempty (codes "transactionType") p.transaction_type user in
    let from = set_nonempty (codes "startDate") p.start_date kind in
    set_nonempty (codes "endDate") p.end_date from

abbrev no_params : TransactionsParams
no_params = record {
  external_reference_uid = [];
  transaction_type = [];
  start_date = [];
  end_date = [];
  start = 0;
  count = 0;
}

abbrev pub given : Option TransactionsParams → TransactionsParams
given none = no_params
given (some p) = p

module _ (c : Client) (w : World) (base_url : Bytes) where
  -- `Transactions` of a service that is configured.
  unfoldable pub transactions :
      (Bytes → Cause ⊎ TransactionsResponse) → Option TransactionsParams → Call TransactionsResponse
  transactions decode params =
      let p = given params in
      checked (validate_transactions_params p)
        (get_call c w base_url (codes "/transactions") decode (build_transactions_query p))

  unfoldable pub validate_detail : (request_id external_reference_uid kind : Bytes) → Check
  validate_detail request_id external_reference_uid kind = do
    reject (is_empty request_id) "requestId"
        "required (the original payment / refund / repayment requestId)"
    reject (is_empty external_reference_uid) "externalReferenceUid"
        "required (the partner-side user identifier)"
    reject (is_empty kind) "transactionType" "required (PAYMENT / REFUND / REPAYMENT)"

  unfoldable pub transaction_detail :
      (Bytes → Cause ⊎ TransactionDetailResponse)
      → (request_id external_reference_uid kind : Bytes) → Call TransactionDetailResponse
  transaction_detail decode request_id external_reference_uid kind =
      checked (validate_detail request_id external_reference_uid kind) (
        get_call c w base_url (codes "/transactionDetail") decode (
          (codes "requestId", request_id ∷ [])
          ∷ (codes "externalReferenceUid", external_reference_uid ∷ [])
          ∷ (codes "transactionType", kind ∷ [])
          ∷ []))
