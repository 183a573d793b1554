-- ===== src/Api/Handlers.antt =====
-- src/api/handlers.rs: /encrypt and /decrypt.
use Prim.Native.String.{◌++◌ as ◌<>◌}
use secret_management.Prelude.{
  ℕ, ltb, eqb, String, Bytes, length, Result, ok, err, map_err, ok_or, fail_if, ◌>>=◌, ◌>>◌,
}
use secret_management.Http.{bad_request, payload_too_large, internal_server_error}
use secret_management.Errors.{CryptoError, unknown_key_id}
use secret_management.Crates.{Crates}
use secret_management.Kek.{KekStore}
use secret_management.Envelope.{EncryptedEnvelope, encrypt_envelope}
use secret_management.Envelope.Decrypt.{decrypt_envelope}
use secret_management.Api.Models.{
  EncryptRequest, EncryptResponse, DecryptRequest, DecryptResponse, Failure, validate_encrypt,
  validate_decrypt,
}

abbrev pub response_of : EncryptedEnvelope → EncryptResponse
response_of envelope = record {
  ciphertext_b64 = envelope.ciphertext_b64;
  nonce_b64 = envelope.nonce_b64;
  encrypted_dek_b64 = envelope.encrypted_dek_b64;
  dek_nonce_b64 = envelope.dek_nonce_b64;
  key_id = envelope.key_id;
}

-- the answer for the result of `encrypt_envelope`
abbrev pub encrypted : Result CryptoError EncryptedEnvelope × ℕ → Result Failure EncryptResponse × ℕ
encrypted (ok envelope, i) = (ok (response_of envelope), i)
encrypted (err e, i) = (err (internal_server_error, "Encryption failed"), i)

-- the envelope that the handler of /decrypt makes of a request
abbrev pub envelope_of : DecryptRequest → EncryptedEnvelope
envelope_of payload = record {
  ciphertext_b64 = payload.ciphertext_b64;
  nonce_b64 = payload.nonce_b64;
  encrypted_dek_b64 = payload.encrypted_dek_b64;
  dek_nonce_b64 = payload.dek_nonce_b64;
  key_id = payload.key_id;
  tenant_id = "default";
  purpose = "default";
  algorithm = "aes-256-gcm";
}

abbrev pub decrypt_failure : String → CryptoError → Failure
decrypt_failure key_id unknown_key_id = (bad_request, "unknown key_id: " <> key_id)
decrypt_failure key_id _ =
    (bad_request, "Decryption failed: invalid ciphertext or corrupted envelope")

module _ {C D : Type 0} (x : Crates C D) where
  -- what `encrypt_handler` does before it draws: the bytes of the payload
  unfoldable pub payload_of : EncryptRequest → Result Failure Bytes
  payload_of payload = do
    validate_encrypt payload
    plaintext_bytes ←
        ok_or (bad_request, "Invalid base64 encoding") (x.b64_decode payload.payload_b64)
    fail_if (eqb (length plaintext_bytes) 0) (bad_request, "Plaintext must not be empty")
    fail_if (ltb 1000000 (length plaintext_bytes))
        (payload_too_large, "Decoded payload exceeds 1MB")
    ok plaintext_bytes

  -- the end of the handler, where the payload is accepted
  abbrev pub encrypt_payload :
      KekStore C → Result Failure Bytes → ℕ → Result Failure EncryptResponse × ℕ
  encrypt_payload st (ok m) i =
      encrypted (encrypt_envelope x st "default" "default" "aes-256-gcm" m i)
  encrypt_payload st (err e) i = (err e, i)

  unfoldable pub encrypt_handler :
      KekStore C → EncryptRequest → ℕ → Result Failure EncryptResponse × ℕ
  encrypt_handler st payload i = encrypt_payload st (payload_of payload) i

  unfoldable pub decrypt_handler : KekStore C → DecryptRequest → Result Failure DecryptResponse
  decrypt_handler st payload = do
    validate_decrypt payload
    plaintext_data ←
        map_err (decrypt_failure payload.key_id) (decrypt_envelope x st (envelope_of payload))
    ok (record { payload_b64 = x.b64_encode plaintext_data })
