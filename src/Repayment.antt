-- ===== src/Repayment.antt =====
-- atomefin/repayment/repayment.go: the check of a repayment, Repayment and QueryRepayment.
pub mod Types
use atome_fin_go_sdk.Base.{[], ◌∷◌, Option, ◌⊎◌, Bytes, codes, is_empty, le_zero}
use atome_fin_go_sdk.Errors.{Cause}
use atome_fin_go_sdk.Client.Exchange.{Client, World}
use atome_fin_go_sdk.Payment.Checks.{Check, ◌>>◌, reject, longer}
use atome_fin_go_sdk.Service.{
  Call, get_call, post_call, checked, requested, request_id_or, short_required,
}
use atome_fin_go_sdk.Repayment.Types.{RepaymentParam, RepaymentResponse}

unfoldable pub validate_repayment : RepaymentParam → Check
validate_repayment req = do
  short_required "requestId" req.request_id
  short_required "externalReferenceUid" req.external_reference_uid
  reject (le_zero req.repayment_amount) "repaymentAmount" "must be > 0 (minor units)"
  reject (le_zero req.repayment_apply_time) "repaymentApplyTime"
      "must be > 0 (Unix timestamp in milliseconds; TZ unspecified — Q11)"

unfoldable pub validate_repayment_query : (request_id external_reference_uid : Bytes) → Check
validate_repayment_query request_id external_reference_uid = do
  reject (is_empty request_id) "requestId"
      "required (the requestId from the prior /repayment-request submission)"
  reject (longer request_id 64) "requestId" "exceeds spec maxlength 64"
  short_required "externalReferenceUid" external_reference_uid

module _ (c : Client) (w : World) (base_url : Bytes)
    (decode : Bytes → Cause ⊎ RepaymentResponse) where
  -- `Repayment`; `minted` is the id that the client's generator gives.
  unfoldable pub repayment :
      (RepaymentParam → Cause ⊎ Bytes)
      → (minted : Bytes) → Option RepaymentParam
      → Call RepaymentResponse
  repayment encode minted req = requested "nil RepaymentParam" req (λ given.
      let sent = record given { request_id = request_id_or minted given.request_id } in
      checked (validate_repayment sent)
        (post_call c w base_url (codes "/repayment-request") decode (encode sent)))

  unfoldable pub query_repayment :
      (request_id external_reference_uid : Bytes) → Call RepaymentResponse
  query_repayment request_id external_reference_uid =
      checked (validate_repayment_query request_id external_reference_uid) (
        get_call c w base_url (codes "/repayment-result") decode (
          (codes "requestId", request_id ∷ [])
          ∷ (codes "externalReferenceUid", external_reference_uid ∷ [])
          ∷ []))
