-- ===== src/Api/Models.antt =====
-- src/api/models.rs: requests and answers, and the validation of their sizes.
use Prim.Native.String.{◌++◌ as ◌<>◌, len}
use secret_management.Std.Text.{decimal}
use secret_management.Prelude.{ℕ, ltb, eqb, String, if◌then◌else◌, Result, ok, err, map_err, ◌>>◌}
use secret_management.Http.{StatusCode, bad_request, payload_too_large}

abbrev pub max_b64_len : ℕ
max_b64_len = 1500000

abbrev pub max_field_len : ℕ
max_field_len = 200

unfoldable pub validate_max_len : String → ℕ → String → Result String (Unit {0})
validate_max_len s max field_name =
    if ltb max (len s)
    then err (field_name <> " exceeds maximum length of " <> decimal max <> " bytes")
    else if eqb (len s) 0
    then err (field_name <> " must not be empty")
    else ok tt

pub record EncryptRequest : Type 0 where
  pub payload_b64 : String

-- the answer to /encrypt
pub record EncryptResponse : Type 0 where
  pub ciphertext_b64 : String
  pub nonce_b64 : String
  pub encrypted_dek_b64 : String
  pub dek_nonce_b64 : String
  pub key_id : String

pub record DecryptRequest : Type 0 where
  pub ciphertext_b64 : String
  pub nonce_b64 : String
  pub encrypted_dek_b64 : String
  pub dek_nonce_b64 : String
  pub key_id : String

pub record DecryptResponse : Type 0 where
  pub payload_b64 : String

-- a status with the text of the body
abbrev pub Failure : Type 0
Failure = StatusCode × String

abbrev pub with_status : StatusCode → String → Failure
with_status status e = (status, e)

-- `EncryptRequest::validate`
unfoldable pub validate_encrypt : EncryptRequest → Result Failure (Unit {0})
unfolding validate_max_len
validate_encrypt req =
    map_err (with_status payload_too_large)
      (validate_max_len req.payload_b64 max_b64_len "payload_b64")

-- `DecryptRequest::validate`
unfoldable pub validate_decrypt : DecryptRequest → Result Failure (Unit {0})
unfolding validate_max_len
validate_decrypt req = do
  map_err (with_status payload_too_large)
      (validate_max_len req.ciphertext_b64 max_b64_len "ciphertext_b64")
  map_err (with_status bad_request) (validate_max_len req.nonce_b64 max_field_len "nonce_b64")
  map_err (with_status bad_request)
      (validate_max_len req.encrypted_dek_b64 max_field_len "encrypted_dek_b64")
  map_err (with_status bad_request)
      (validate_max_len req.dek_nonce_b64 max_field_len "dek_nonce_b64")
