-- ===== src/Services/CryptoService.antt =====
-- src/services/crypto_service.rs: encryption with the store of a tenant.
use secret_management.Prelude.{String, Bytes, Result, err, ok_or, none, some, or_else, Option}
use secret_management.Errors.{CryptoError, unknown_key_id}
use secret_management.Policy.{Policy, validate_primitive_compliance}
use secret_management.Crates.{Crates}
use secret_management.Kek.{KekStore}
use secret_management.Envelope.{◌>>=◌, ◌>>◌, EncryptedEnvelope, Rand, lift, encrypt_envelope}
use secret_management.Envelope.Decrypt.{decrypt_envelope}
use secret_management.Services.KeyService.{KeyService, get_store}

-- The store of a tenant, or else that of "default".
unfoldable pub store_for : {C K R : Type 0} → KeyService C K R → String → Option (KekStore C)
unfolding get_store
store_for ks tenant_id = or_else (get_store ks tenant_id) (get_store ks "default")

module _ {C D K R : Type 0} (x : Crates C D) where
  unfoldable pub encrypt :
      KeyService C K R → String → String → Policy → Bytes → Rand EncryptedEnvelope
  encrypt ks tenant_id purpose policy plaintext = do
    lift (validate_primitive_compliance "aes-256-gcm" policy.classification)
    store ← lift (ok_or unknown_key_id (store_for ks tenant_id))
    encrypt_envelope x store tenant_id purpose "aes-256-gcm" plaintext

  unfoldable pub decrypt : KeyService C K R → String → EncryptedEnvelope → Result CryptoError Bytes
  decrypt ks tenant_id envelope = elim (store_for ks tenant_id) [
    | none ↦ err unknown_key_id
    | some store ↦ decrypt_envelope x store envelope
  ]
