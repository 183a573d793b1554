-- ===== src/Api/V1.antt =====
-- src/api/v1.rs: what the handlers of /v1/crypto share, and the two of the envelopes. The children
-- have the signatures and the hashes.
pub mod Sign
pub mod Hashes
pub mod RoundTrip
pub mod Signatures
pub mod HashNames
pub mod Statuses
use secret_management.Prelude.{
  ℕ, ltb, eqb, ◌||◌, String, Option, Bytes, length, ◌==◌, if◌then◌else◌, Result, ok, err, map_err,
  ok_or, fail_if, ◌>>=◌, ◌>>◌,
}
use secret_management.Http.{bad_request}
use secret_management.Errors.{CryptoError, to_string}
use secret_management.Std.Text.Case.{normalize}
use secret_management.Policy.{
  Policy, SecurityClassification, rendah, tinggi, strategis, validate_primitive_compliance,
}
use secret_management.Crates.{Crates}
use secret_management.Envelope.{EncryptedEnvelope}
use secret_management.Services.KeyService.{KeyService}
use secret_management.Services.CryptoService.{store_for, encrypt, decrypt}
use secret_management.Api.Models.{Failure}
use secret_management.Api.Dto.{EncryptDto, DecryptDto, EncryptV1Response, DecryptV1Response}

unfoldable pub class : String → SecurityClassification
class s =
    if normalize s == "rendah"
    then rendah
    else if normalize s == "tinggi"
    then tinggi
    else strategis

-- `.map_err(|e| err(StatusCode::BAD_REQUEST, e.to_string()))`
abbrev pub refused : CryptoError → Failure
refused e = (bad_request, to_string e)

-- `validate_primitive_compliance` with that error
unfoldable pub check_policy : String → String → Result Failure (Unit {0})
check_policy algo classification =
    map_err refused (validate_primitive_compliance algo (class classification))

-- the check that a tenant, or else "default", has a store
unfoldable pub check_tenant :
    {C K R : Type 0} → KeyService C K R → String → Result Failure (Unit {0})
check_tenant ks tenant_id = do ok_or (bad_request, "Unknown tenant") (store_for ks tenant_id); ok tt

abbrev pub v1_response : EncryptedEnvelope → EncryptV1Response
v1_response env = record {
  ciphertext_b64 = env.ciphertext_b64;
  nonce_b64 = env.nonce_b64;
  encrypted_dek_b64 = env.encrypted_dek_b64;
  dek_nonce_b64 = env.dek_nonce_b64;
  key_id = env.key_id;
  algorithm = env.algorithm;
  tenant_id = env.tenant_id;
  purpose = env.purpose;
}

-- the answer for the result of the service
abbrev pub v1_encrypted :
    Result CryptoError EncryptedEnvelope × ℕ → Result Failure EncryptV1Response × ℕ
v1_encrypted (ok env, i) = (ok (v1_response env), i)
v1_encrypted (err e, i) = (err (refused e), i)

unfoldable pub b64d : {C D : Type 0} → Crates C D → String → Result Failure Bytes
b64d x s = ok_or (bad_request, "Invalid base64") (x.b64_decode s)

abbrev pub v1_policy : EncryptDto → Policy
v1_policy d = record {
  classification = class d.classification;
  purpose = d.purpose;
  tenant_id = d.tenant_id;
}

module _ {C D K R : Type 0} (x : Crates C D) where
  -- what `encrypt_v1` does before it calls the service: the bytes of the payload
  unfoldable pub v1_payload : KeyService C K R → EncryptDto → Result Failure Bytes
  unfolding check_policy check_tenant b64d
  v1_payload ks d = do
    check_policy "aes-256-gcm" d.classification
    check_tenant ks d.tenant_id
    pt ← b64d x d.content
    fail_if (eqb (length pt) 0 || ltb 1000000 (length pt)) (bad_request, "Invalid payload size")
    ok pt

  -- the rest of `encrypt_v1`, where the payload is accepted
  abbrev pub v1_encrypt_payload :
      KeyService C K R
      → EncryptDto
      → Result Failure Bytes
      → ℕ
      → Result Failure EncryptV1Response × ℕ
  v1_encrypt_payload ks d (ok pt) i =
      v1_encrypted (encrypt x ks d.tenant_id d.purpose (v1_policy d) pt i)
  v1_encrypt_payload ks d (err e) i = (err e, i)

  unfoldable pub encrypt_v1 :
      KeyService C K R → EncryptDto → ℕ → Result Failure EncryptV1Response × ℕ
  encrypt_v1 ks d i = v1_encrypt_payload ks d (v1_payload ks d) i

  -- `from_slice` is `serde_json::from_slice`
  unfoldable pub decrypt_v1 :
      (Bytes → Option EncryptedEnvelope)
      → KeyService C K R
      → DecryptDto
      → Result Failure DecryptV1Response
  unfolding check_policy check_tenant b64d
  decrypt_v1 from_slice ks d = do
    check_policy "aes-256-gcm" d.classification
    check_tenant ks d.tenant_id
    raw ← b64d x d.content
    env ← ok_or (bad_request, "Invalid envelope") (from_slice raw)
    pt ← map_err refused (decrypt x ks d.tenant_id env)
    ok (record { payload_b64 = x.b64_encode pt })
