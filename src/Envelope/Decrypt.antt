-- ===== src/Envelope/Decrypt.antt =====
-- `decrypt_envelope` of src/crypto/envelope.rs.
use secret_management.Prelude.{
  String, Bool, ◌||◌, not, ◌==◌, [], Bytes, length, eqb, if◌then◌else◌, Result, ok, err, map_err,
  ok_or, fail_if, ◌>>=◌, ◌>>◌,
}
use secret_management.Std.Text.Case.{normalize}
use secret_management.Std.Utf8.{as_bytes}
use secret_management.Errors.{CryptoError, decryption_failed, invalid_base64, unknown_key_id}
use secret_management.Policy.{strategis, validate_primitive_compliance}
use secret_management.Crates.{Crates}
use secret_management.Kek.{KekStore, resolve_raw}
use secret_management.Symmetric.AesGcm
use secret_management.Symmetric.ChaCha
use secret_management.Envelope.{EncryptedEnvelope, is_chacha, aad_bytes, unsupported}

-- The algorithm of an envelope; an old one has none.
unfoldable pub algorithm_of : EncryptedEnvelope → String
algorithm_of env = if env.algorithm == "" then "aes-256-gcm" else env.algorithm

unfoldable pub is_legacy : EncryptedEnvelope → Bool
is_legacy env = env.tenant_id == "" || env.purpose == "" || env.algorithm == ""

-- The `match` on the first attempt: the legacy associated data is tried where it may be meant.
unfoldable pub or_legacy :
    EncryptedEnvelope
    → (Bytes → Result CryptoError Bytes)
    → Result CryptoError Bytes
    → Result CryptoError Bytes
unfolding is_legacy
or_legacy env try_decrypt (ok v) = ok v
or_legacy env try_decrypt (err _) =
    if is_legacy env then try_decrypt (as_bytes env.key_id) else err decryption_failed

module _ {C D : Type 0} (x : Crates C D) where
  -- the closure `try_decrypt`
  unfoldable pub unwrap_key :
      String → String → Bytes → Bytes → Bytes → Bytes → Result CryptoError Bytes
  unwrap_key algorithm normalized kek dek_nonce encrypted_dek aad =
      if is_chacha normalized
      then map_err (λ _. decryption_failed)
          (ChaCha.decrypt x.chacha (ChaCha.new x.chacha kek) dek_nonce encrypted_dek aad)
      else if normalized == "aes-256-gcm"
      then map_err (λ _. decryption_failed)
          (AesGcm.decrypt x.aes (AesGcm.new x.aes kek) dek_nonce encrypted_dek aad)
      else err (unsupported algorithm)

  -- the payload under the data key
  unfoldable pub decrypt_data : String → Bytes → Bytes → Bytes → Result CryptoError Bytes
  decrypt_data normalized dek nonce ciphertext =
      if is_chacha normalized
      then map_err (λ _. decryption_failed)
          (ChaCha.decrypt x.chacha (ChaCha.new x.chacha dek) nonce ciphertext [])
      else map_err (λ _. decryption_failed)
          (AesGcm.decrypt x.aes (AesGcm.new x.aes dek) nonce ciphertext [])

  unfoldable pub b64_field : String → Result CryptoError Bytes
  b64_field s = ok_or invalid_base64 (x.b64_decode s)

  -- what follows the decoding of the four fields
  unfoldable pub open_envelope :
      KekStore C → EncryptedEnvelope → Bytes → Bytes → Bytes → Bytes → Result CryptoError Bytes
  open_envelope st env ciphertext nonce encrypted_dek dek_nonce = do
    fail_if (not (eqb (length nonce) 12) || not (eqb (length dek_nonce) 12)) decryption_failed
    let algorithm = algorithm_of env
    let normalized = normalize algorithm
    validate_primitive_compliance normalized strategis
    kek ← ok_or unknown_key_id (resolve_raw st env.key_id)
    let try_decrypt = unwrap_key algorithm normalized kek dek_nonce encrypted_dek
    let aad_canonical = aad_bytes env.tenant_id env.purpose env.key_id normalized
    dek ← or_legacy env try_decrypt (try_decrypt aad_canonical)
    fail_if (not (eqb (length dek) 32)) decryption_failed
    decrypt_data normalized dek nonce ciphertext

  unfoldable pub decrypt_envelope : KekStore C → EncryptedEnvelope → Result CryptoError Bytes
  unfolding b64_field
  decrypt_envelope st env = do
    ciphertext ← b64_field env.ciphertext_b64
    nonce ← b64_field env.nonce_b64
    encrypted_dek ← b64_field env.encrypted_dek_b64
    dek_nonce ← b64_field env.dek_nonce_b64
    open_envelope st env ciphertext nonce encrypted_dek dek_nonce
