-- ===== src/Bill.antt =====
-- atomefin/bill/bill.go: the bill queries.
pub mod Types
use atome_fin_go_sdk.Base.{
  [], ◌∷◌, ◌++◌, ℕ, List, not, Option, none, some, ◌⊎◌, inl, inr, if◌then◌else◌, ltb, is_empty,
  le_zero, Bytes, codes, put, itoa,
}
use atome_fin_go_sdk.Errors.{Cause, Error}
use atome_fin_go_sdk.Url.Query.{add_value}
use atome_fin_go_sdk.Client.Exchange.{Client, World}
use atome_fin_go_sdk.Sign.Canonical.{Values}
use atome_fin_go_sdk.Payment.Checks.{Check, ◌>>◌, reject}
use atome_fin_go_sdk.Service.{Call, get_call, checked, requested}
use atome_fin_go_sdk.Transaction.{below_zero, max_count, set_nonempty}
use atome_fin_go_sdk.Bill.Types.{
  BillsParams, BillDetailParams, BillsUnpaidParams, BillsResponse, BillsResponseItem,
  BillDetailResponse, BillUnpaidResponse,
}

unfoldable pub validate_bills_params : BillsParams → Check
validate_bills_params p = do
  reject (is_empty p.external_reference_uid) "externalReferenceUid" "required"
  reject (is_empty p.start_month) "startMonth" "required"
  reject (is_empty p.end_month) "endMonth" "required"

unfoldable pub validate_bill_detail_params : BillDetailParams → Check
validate_bill_detail_params p = do
  reject (is_empty p.bill_id) "billId" "required (format yyyyMM, e.g. \"202607\")"
  reject (is_empty p.external_reference_uid) "externalReferenceUid"
      "required (the partner-side user identifier)"
  reject (below_zero p.start) "start" "must be >= 0 (0 omits the param and uses server default 1)"
  reject (below_zero p.count) "count" "must be >= 0 (0 omits the param and uses server default 10)"
  reject (ltb max_count p.count) "count" "must be <= 50"

unfoldable pub validate_bills_unpaid_params : BillsUnpaidParams → Check
validate_bills_unpaid_params p =
    reject (is_empty p.external_reference_uid) "externalReferenceUid" "required"

-- `for _, v := range values { q.Add(key, v) }`.
unfoldable pub add_each : Bytes → List Bytes → Values → Values
add_each key [] q = q
add_each key (v ∷ vs) q = add_each key vs (add_value key v q)

unfoldable pub build_bills_query : BillsParams → Values
build_bills_query p =
    let user = set_nonempty (codes "externalReferenceUid") p.external_reference_uid [] in
    let from = set_nonempty (codes "startMonth") p.start_month user in
    let to = set_nonempty (codes "endMonth") p.end_month from in
    add_each (codes "refundStatus") p.refund_status (
      add_each (codes "overdueStatus") p.overdue_status (
        add_each (codes "repaymentStatus") p.repayment_status
          (add_each (codes "status") p.status to)))

-- `if n > 0 { q.Set(key, strconv.Itoa(n)) }`.
unfoldable pub set_positive : Bytes → ℕ → Values → Values
set_positive key n q = if le_zero n then q else put key (itoa n ∷ []) q

unfoldable pub build_bill_detail_query : BillDetailParams → Values
build_bill_detail_query p = set_positive (codes "count") p.count (
    set_positive (codes "start") p.start (
      (codes "billId", p.bill_id ∷ [])
      ∷ (codes "externalReferenceUid", p.external_reference_uid ∷ [])
      ∷ []))

unfoldable pub build_bills_unpaid_query : BillsUnpaidParams → Values
build_bills_unpaid_query p = set_nonempty (codes "externalReferenceUid") p.external_reference_uid []

abbrev no_bills_params : BillsParams
no_bills_params = record {
  external_reference_uid = [];
  start_month = [];
  end_month = [];
  status = [];
  repayment_status = [];
  overdue_status = [];
  refund_status = [];
}

abbrev given_bills : Option BillsParams → BillsParams
given_bills none = no_bills_params
given_bills (some p) = p

abbrev given_unpaid : Option BillsUnpaidParams → BillsUnpaidParams
given_unpaid none = record { external_reference_uid = [] }
given_unpaid (some p) = p

rows_of : Error ⊎ BillsResponse → Error ⊎ List BillsResponseItem
rows_of (inl e) = inl e
rows_of (inr reply) = inr reply.data_

module _ (c : Client) (w : World) (base_url : Bytes) where
  unfoldable pub bills : (Bytes → Cause ⊎ BillsResponse) → Option BillsParams → Call BillsResponse
  bills decode params =
      let p = given_bills params in
      checked (validate_bills_params p)
        (get_call c w base_url (codes "/bills") decode (build_bills_query p))

  -- `BillDetailWithParams`, which `BillDetail` calls without start and count.
  unfoldable pub bill_detail_with_params :
      (Bytes → Cause ⊎ BillDetailResponse) → Option BillDetailParams → Call BillDetailResponse
  bill_detail_with_params decode params = requested "nil BillDetailParams" params (λ p.
      checked (validate_bill_detail_params p)
        (get_call c w base_url (codes "/billDetail") decode (build_bill_detail_query p)))

  unfoldable pub bill_detail :
      (Bytes → Cause ⊎ BillDetailResponse)
      → (bill_id external_reference_uid : Bytes) → Call BillDetailResponse
  bill_detail decode bill_id external_reference_uid = bill_detail_with_params decode (
      some (record {
        bill_id = bill_id;
        external_reference_uid = external_reference_uid;
        start = 0;
        count = 0;
      }))

  unfoldable pub bills_unpaid :
      (Bytes → Cause ⊎ BillUnpaidResponse) → Option BillsUnpaidParams → Call BillUnpaidResponse
  bills_unpaid decode params =
      let p = given_unpaid params in
      checked (validate_bills_unpaid_params p)
        (get_call c w base_url (codes "/billUnpaid") decode (build_bills_unpaid_query p))

  unfoldable pub bills_all :
      (Bytes → Cause ⊎ BillsResponse) → Option BillsParams → Call (List BillsResponseItem)
  unfolding rows_of
  bills_all decode params = let reply = bills decode params in (rows_of reply.0, reply.1)
