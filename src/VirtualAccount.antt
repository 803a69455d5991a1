-- ===== src/VirtualAccount.antt =====
-- atomefin/virtualaccount/virtualaccount.go: ListBanks and GetOrCreate.
pub mod Types
use atome_fin_go_sdk.Base.{not, ◌||◌, Bool, Option, ◌⊎◌, Bytes, codes, bytes_eq}
use atome_fin_go_sdk.Errors.{Cause}
use atome_fin_go_sdk.Client.Exchange.{Client, World}
use atome_fin_go_sdk.Payment.Checks.{Check, ◌>>◌, reject}
use atome_fin_go_sdk.Service.{Call, post_call, checked, requested, short_required}
use atome_fin_go_sdk.VirtualAccount.Types.{
  VirtualAccountRequest, VirtualAccountListResponse, VirtualAccountResponse,
}

-- `BankCode.IsValid`.
unfoldable pub is_valid_bank_code : Bytes → Bool
is_valid_bank_code c =
    bytes_eq c (codes "BCA")
    || bytes_eq c (codes "MANDIRI")
    || bytes_eq c (codes "BRI")
    || bytes_eq c (codes "BNI")
    || bytes_eq c (codes "PERMATA")
    || bytes_eq c (codes "SAHABAT_SAMPOERNA")

unfoldable pub validate_virtual_account_request : VirtualAccountRequest → Check
validate_virtual_account_request req = do
  short_required "externalReferenceUid" req.external_reference_uid
  reject (not (is_valid_bank_code req.bank_code)) "bankCode"
      "must be one of BCA | MANDIRI | BRI | BNI | PERMATA | SAHABAT_SAMPOERNA"

module _ (c : Client) (w : World) (base_url : Bytes) where
  -- `ListBanks`; `empty` is the marshalled empty object.
  unfoldable pub list_banks :
      (Bytes → Cause ⊎ VirtualAccountListResponse)
      → (empty : Cause ⊎ Bytes) → Call VirtualAccountListResponse
  list_banks decode empty = post_call c w base_url (codes "/va/getList") decode empty

  unfoldable pub get_or_create :
      (Bytes → Cause ⊎ VirtualAccountResponse)
      → (VirtualAccountRequest → Cause ⊎ Bytes)
      → Option VirtualAccountRequest
      → Call VirtualAccountResponse
  get_or_create decode encode req = requested "nil VirtualAccountRequest" req (λ given.
      checked (validate_virtual_account_request given)
        (post_call c w base_url (codes "/va/vaCodeByBank") decode (encode given)))
