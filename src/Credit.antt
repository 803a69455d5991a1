-- ===== src/Credit.antt =====
-- atomefin/credit/credit.go and validation.go: the credit calls and their checks.
pub mod Types
pub mod Responses
pub mod Checks
pub mod Rules
use atome_fin_go_sdk.Base.{
  [], ◌∷◌, ℕ, Option, none, some, List, ◌⊎◌, inl, inr, Bytes, codes, put, itoa,
}
use atome_fin_go_sdk.Errors.{Cause, signature}
use atome_fin_go_sdk.Client.Exchange.{Client, World}
use atome_fin_go_sdk.Client.Dispatch.{Trace}
use atome_fin_go_sdk.Client.Encrypted.{do_encrypted_signed}
use atome_fin_go_sdk.Encrypt.Body.{Ciphers}
use atome_fin_go_sdk.Encrypt.Envelope.{Rsa}
use atome_fin_go_sdk.Sign.Canonical.{Values}
use atome_fin_go_sdk.Service.{
  Call, get_call, post_call, decode_response, checked, requested, request_id_or, positive_or,
}
use atome_fin_go_sdk.Transaction.{default_start, default_count, set_nonempty}
use atome_fin_go_sdk.Credit.Types.{
  QueryUserTagParam, CreditInformationParam, CreditApplicationParam, CreditApplicationChangeParam,
  CloseAccountParam, BalanceHistoryParams,
}
use atome_fin_go_sdk.Credit.Responses.{
  QueryUserTagResponse, CreditInformationResponse, CreditApplicationResponse,
  CreditInformationCollectResponse, BalanceHistoryResponse, ModifyApplicationInfoResponse,
  CloseAccountResponse,
}
use atome_fin_go_sdk.Credit.Checks.{
  validate_credit_application, validate_credit_application_change, validate_close_account,
  validate_balance_history_params, validate_result_query, validate_information_query,
}

unfoldable pub build_balance_history_query : BalanceHistoryParams → Values
build_balance_history_query p =
    let user = put (codes "externalReferenceUid") (p.external_reference_uid ∷ []) [] in
    let kind = put (codes "type") (p.kind ∷ []) user in
    let id = set_nonempty (codes "requestId") p.request_id kind in
    put (codes "count") (itoa (positive_or default_count p.count) ∷ [])
      (put (codes "start") (itoa (positive_or default_start p.start) ∷ []) id)

module _ (c : Client) (w : World) (base_url : Bytes) where
  unfoldable pub query_result :
      (Bytes → Cause ⊎ CreditApplicationResponse)
      → (external_reference_uid : Bytes) → Call CreditApplicationResponse
  query_result decode external_reference_uid =
      checked (validate_result_query external_reference_uid) (
        get_call c w base_url (codes "/credit-result") decode
          ((codes "externalReferenceUid", external_reference_uid ∷ []) ∷ []))

  unfoldable pub query_information_result :
      (Bytes → Cause ⊎ CreditInformationCollectResponse)
      → (external_reference_uid request_id : Bytes) → Call CreditInformationCollectResponse
  query_information_result decode external_reference_uid request_id =
      checked (validate_information_query external_reference_uid request_id) (
        get_call c w base_url (codes "/credit-information-result") decode (
          (codes "externalReferenceUid", external_reference_uid ∷ [])
          ∷ (codes "requestId", request_id ∷ [])
          ∷ []))

  unfoldable pub balance_history :
      (Bytes → Cause ⊎ BalanceHistoryResponse)
      → Option BalanceHistoryParams
      → Call BalanceHistoryResponse
  balance_history decode params = requested "nil BalanceHistoryParams" params (λ p.
      checked (validate_balance_history_params p) (
        get_call c w base_url (codes "/query-balance-history") decode
          (build_balance_history_query p)))

  -- `minted` is the id that the client's generator gives.
  unfoldable pub modify_application_info :
      (Bytes → Cause ⊎ ModifyApplicationInfoResponse)
      → (CreditApplicationChangeParam → Cause ⊎ Bytes)
      → (minted : Bytes) → Option CreditApplicationChangeParam
      → Call ModifyApplicationInfoResponse
  modify_application_info decode encode minted req =
      requested "nil CreditApplicationChangeParam" req (λ given.
        let sent = record given { request_id = request_id_or minted given.request_id } in
        checked (validate_credit_application_change sent)
          (post_call c w base_url (codes "/modify-application-info") decode (encode sent)))

  unfoldable pub close_account :
      (Bytes → Cause ⊎ CloseAccountResponse)
      → (CloseAccountParam → Cause ⊎ Bytes)
      → (minted : Bytes) → Option CloseAccountParam
      → Call CloseAccountResponse
  close_account decode encode minted req = requested "nil CloseAccountParam" req (λ given.
      let sent = record given { request_id = request_id_or minted given.request_id } in
      checked (validate_close_account sent)
        (post_call c w base_url (codes "/close-account") decode (encode sent)))

-- The calls that seal their body; `none` where the randomness given here does not make up a key.
module _ {Public Private Random : Type 0} (rsa : Rsa Public Private Random) (lib : Ciphers)
    (c : Client) (w : World) (base_url : Bytes) (public : Option Public) (reads : List (Option ℕ))
    (random : Random) where
  decoded_trace : {T : Type 0} → Bytes → (Bytes → Cause ⊎ T) → Option Trace → Option (Call T)
  decoded_trace op decode none = none
  decoded_trace op decode (some t) = some (decode_response op decode t)

  -- `invokeEncryptedPost`.
  unfoldable pub encrypted_post_call :
      {T : Type 0} → Bytes → (Bytes → Cause ⊎ T) → Cause ⊎ Bytes → Option (Call T)
  unfolding decoded_trace
  encrypted_post_call op decode (inl e) = some (inl (signature "marshal" e), [])
  encrypted_post_call op decode (inr body) =
      decoded_trace op decode
        (do_encrypted_signed rsa lib c w base_url public reads random (codes "POST") op body [])

  unfoldable pub query_user_tag :
      (Bytes → Cause ⊎ QueryUserTagResponse)
      → (QueryUserTagParam → Cause ⊎ Bytes)
      → (minted : Bytes) → QueryUserTagParam
      → Option (Call QueryUserTagResponse)
  query_user_tag decode encode minted given =
      encrypted_post_call (codes "/query-user-tag") decode
        (encode (record given { request_id = request_id_or minted given.request_id }))

  unfoldable pub submit_information :
      (Bytes → Cause ⊎ CreditInformationResponse)
      → (CreditInformationParam → Cause ⊎ Bytes)
      → (minted : Bytes) → CreditInformationParam
      → Option (Call CreditInformationResponse)
  submit_information decode encode minted given =
      encrypted_post_call (codes "/credit-information") decode
        (encode (record given { request_id = request_id_or minted given.request_id }))

  unfoldable pub submit_application :
      (Bytes → Cause ⊎ CreditApplicationResponse)
      → (CreditApplicationParam → Cause ⊎ Bytes)
      → (minted : Bytes) → CreditApplicationParam
      → Option (Call CreditApplicationResponse)
  submit_application decode encode minted given =
      let sent = record given { request_id = request_id_or minted given.request_id } in
      elim (validate_credit_application sent) [
        | some e ↦ some (inl e, [])
        | none ↦ encrypted_post_call (codes "/credit-application") decode (encode sent)
      ]
