-- ===== src/Service/Fields.antt =====
-- Required fields of at most 64 bytes.
use atome_fin_go_sdk.Base.{◌≡◌, false, none, Bytes, String, is_empty, arith}
use atome_fin_go_sdk.Payment.Checks.{longer}
use atome_fin_go_sdk.Payment.SubOrders.Rules.{is_empty_iff}
use atome_fin_go_sdk.Payment.Requests.Auth.{IsShort}
use atome_fin_go_sdk.Service.{short_required}

pub IsShort-of : (s : Bytes) → is_empty s ≡ false → longer s 64 ≡ false → IsShort s
IsShort-of s e l = ((is_empty_iff s).0 e, ground arith)

pub short_required-IsShort :
    (field : String) (s : Bytes) → short_required field s ≡ none → IsShort s
short_required-IsShort field s h = IsShort-of s (ground arith) (ground arith)

pub IsShort-short_required :
    (field : String) (s : Bytes) → IsShort s → short_required field s ≡ none
IsShort-short_required field s h = rw ((is_empty_iff s).1 h.0) (ground (arith, h.1))
