-- ===== src/Memory/Handlers.antt =====
-- The handlers of src/api that see plaintexts, and src/services/crypto_service.rs, with the buffers of
-- their secrets. The texts of requests and answers are no such buffers: the code never erases them.
use secret_management.Prelude.{
  ℕ, String, ltb, eqb, ◌||◌, false, Option, Bytes, length, ok, ok_or, fail_if,
}
use secret_management.Http.{bad_request, payload_too_large, internal_server_error}
use secret_management.Errors.{CryptoError, unknown_key_id}
use secret_management.Policy.{Policy, validate_primitive_compliance}
use secret_management.Crates.{Crates}
use secret_management.Kek.{KekStore}
use secret_management.Envelope.{EncryptedEnvelope}
use secret_management.Services.KeyService.{KeyService}
use secret_management.Services.CryptoService.{store_for}
use secret_management.Api.Models.{
  EncryptRequest, EncryptResponse, DecryptRequest, DecryptResponse, Failure, validate_encrypt,
  validate_decrypt,
}
use secret_management.Api.Handlers.{response_of, envelope_of, decrypt_failure}
use secret_management.Api.Dto.{EncryptDto, DecryptDto, EncryptV1Response, DecryptV1Response}
use secret_management.Api.V1.{refused, check_policy, check_tenant, b64d, v1_policy, v1_response}
use secret_management.Memory.{
  Mem, lift, renamed, ◌>>=◌, ◌>>◌, alloc, as_bytes, new_plaintext, scope,
}
use secret_management.Memory.Envelope.{encrypt_envelope_in, decrypt_envelope_in}

-- `map_err`
abbrev pub mapped : {E F A : Type 0} → (E → F) → Mem E A → Mem F A
mapped f c i m = renamed f (c i m)

module _ {C D : Type 0} (x : Crates C D) where
  -- the rest of `encrypt_handler`, from the wrapper of the payload
  abbrev pub respond : KekStore C → ℕ → Mem Failure EncryptResponse
  respond st plaintext_data = do
    envelope ←
        mapped (λ _. (internal_server_error, "Encryption failed"))
          (encrypt_envelope_in x st "default" "default" "aes-256-gcm" plaintext_data)
    lift (ok (response_of envelope))

  unfoldable pub encrypt_handler_in : KekStore C → EncryptRequest → Mem Failure EncryptResponse
  encrypt_handler_in st payload = do
    lift (validate_encrypt payload)
    bytes ← lift (ok_or (bad_request, "Invalid base64 encoding") (x.b64_decode payload.payload_b64))
    plaintext_bytes ← alloc (record { to_erase = false; content = bytes })
    lift (fail_if (eqb (length bytes) 0) (bad_request, "Plaintext must not be empty"))
    lift (fail_if (ltb 1000000 (length bytes)) (payload_too_large, "Decoded payload exceeds 1MB"))
    plaintext_data ← new_plaintext plaintext_bytes
    scope plaintext_data (respond st plaintext_data)

  -- the end of `decrypt_handler`, which drops the payload
  abbrev pub encoded : {A : Type 0} → (String → A) → ℕ → Mem Failure A
  encoded to_answer plaintext_data =
      scope plaintext_data
        do bytes ← as_bytes plaintext_data; lift (ok (to_answer (x.b64_encode bytes)))

  unfoldable pub decrypt_handler_in : KekStore C → DecryptRequest → Mem Failure DecryptResponse
  decrypt_handler_in st payload = do
    lift (validate_decrypt payload)
    plaintext_data ←
        mapped (decrypt_failure payload.key_id) (decrypt_envelope_in x st (envelope_of payload))
    encoded (λ text. record { payload_b64 = text }) plaintext_data

  module _ {K R : Type 0} (ks : KeyService C K R) where
    -- `CryptoService::encrypt`, which owns the payload
    unfoldable pub encrypt_in : String → String → Policy → ℕ → Mem CryptoError EncryptedEnvelope
    encrypt_in tenant_id purpose policy plaintext = scope plaintext do
      lift (validate_primitive_compliance "aes-256-gcm" policy.classification)
      store ← lift (ok_or unknown_key_id (store_for ks tenant_id))
      encrypt_envelope_in x store tenant_id purpose "aes-256-gcm" plaintext

    -- `CryptoService::decrypt`
    unfoldable pub decrypt_in : String → EncryptedEnvelope → Mem CryptoError ℕ
    decrypt_in tenant_id envelope = do
      store ← lift (ok_or unknown_key_id (store_for ks tenant_id))
      decrypt_envelope_in x store envelope

    unfoldable pub encrypt_v1_in : EncryptDto → Mem Failure EncryptV1Response
    encrypt_v1_in d = do
      lift (check_policy "aes-256-gcm" d.classification)
      lift (check_tenant ks d.tenant_id)
      bytes ← lift (b64d x d.content)
      pt ← alloc (record { to_erase = false; content = bytes })
      lift (
          fail_if (eqb (length bytes) 0 || ltb 1000000 (length bytes))
            (bad_request, "Invalid payload size"))
      plaintext ← new_plaintext pt
      env ← mapped refused (encrypt_in d.tenant_id d.purpose (v1_policy d) plaintext)
      lift (ok (v1_response env))

    unfoldable pub decrypt_v1_in :
        (Bytes → Option EncryptedEnvelope) → DecryptDto → Mem Failure DecryptV1Response
    decrypt_v1_in from_slice d = do
      lift (check_policy "aes-256-gcm" d.classification)
      lift (check_tenant ks d.tenant_id)
      raw ← lift (b64d x d.content)
      env ← lift (ok_or (bad_request, "Invalid envelope") (from_slice raw))
      pt ← mapped refused (decrypt_in d.tenant_id env)
      encoded (λ text. record { payload_b64 = text }) pt
