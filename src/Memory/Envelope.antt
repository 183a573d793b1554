-- ===== src/Memory/Envelope.antt =====
-- src/crypto/envelope.rs with the buffers of its secrets.
use secret_management.Prelude.{
  ℕ, String, not, eqb, true, false, if◌then◌else◌, Bytes, length, [], ◌∷◌, zero, suc, ok, err,
  ok_or, fail_if, ◌||◌,
}
use secret_management.Std.Text.Case.{normalize}
use secret_management.Errors.{CryptoError, decryption_failed, unknown_key_id}
use secret_management.Policy.{strategis, validate_primitive_compliance}
use secret_management.Crates.{Crates}
use secret_management.Kek.{KekStore, resolve_raw}
use secret_management.Envelope.{EncryptedEnvelope, aad_bytes, fill_bytes, encrypt_data, wrap_key}
use secret_management.Envelope.Decrypt.{
  algorithm_of, or_legacy, unwrap_key, decrypt_data, b64_field,
}
use secret_management.Memory.{
  Mem, lift, kept, ◌>>=◌, ◌>>◌, alloc, as_bytes, write, zeroize, new_dek, new_plaintext, scope,
}

-- `[0u8; n]`
abbrev pub zeros : ℕ → Bytes
zeros zero = []
zeros (suc n) = 0 ∷ zeros n

module _ {C D : Type 0} (x : Crates C D) where
  -- `OsRng.fill_bytes`
  abbrev pub drawn : ℕ → Mem CryptoError Bytes
  drawn n i m = kept m (fill_bytes x n i)

  -- what `encrypt_envelope` does with the data key
  unfoldable pub seal :
      KekStore C → String → String → String → ℕ → ℕ → Mem CryptoError EncryptedEnvelope
  seal st tenant_id purpose algorithm plaintext dek = do
    let normalized = normalize algorithm
    nonce ← drawn 12
    key ← as_bytes dek
    message ← as_bytes plaintext
    ciphertext ← lift (encrypt_data x algorithm normalized key nonce message)
    let aad = aad_bytes tenant_id purpose st.current_id normalized
    dek_nonce ← drawn 12
    dek_key ← as_bytes dek
    encrypted_dek ← lift (wrap_key x normalized st.current_raw dek_nonce dek_key aad)
    lift (
        ok (record {
          ciphertext_b64 = x.b64_encode ciphertext;
          nonce_b64 = x.b64_encode nonce;
          encrypted_dek_b64 = x.b64_encode encrypted_dek;
          dek_nonce_b64 = x.b64_encode dek_nonce;
          key_id = st.current_id;
          tenant_id = tenant_id;
          purpose = purpose;
          algorithm = normalized;
        }))

  unfoldable pub encrypt_envelope_in :
      KekStore C → String → String → String → ℕ → Mem CryptoError EncryptedEnvelope
  encrypt_envelope_in st tenant_id purpose algorithm plaintext = do
    lift (validate_primitive_compliance (normalize algorithm) strategis)
    dek_bytes ← alloc (record { to_erase = false; content = zeros 32 })
    key ← drawn 32
    write dek_bytes key
    dek ← new_dek dek_bytes
    scope dek (seal st tenant_id purpose algorithm plaintext dek)

  -- what `decrypt_envelope` does with the data key
  unfoldable pub unseal : String → ℕ → Bytes → Bytes → Mem CryptoError ℕ
  unseal normalized dek nonce ciphertext = do
    key ← as_bytes dek
    plaintext ← lift (decrypt_data x normalized key nonce ciphertext)
    plaintext_bytes ← alloc (record { to_erase = false; content = plaintext })
    new_plaintext plaintext_bytes

  -- after the data key was unwrapped into a vector
  unfoldable pub with_dek : String → ℕ → Bytes → Bytes → Mem CryptoError ℕ
  with_dek normalized dek_bytes_vec nonce ciphertext = do
    dek_bytes ← alloc (record { to_erase = false; content = zeros 32 })
    key ← as_bytes dek_bytes_vec
    write dek_bytes key
    zeroize dek_bytes_vec
    dek ← new_dek dek_bytes
    scope dek (unseal normalized dek nonce ciphertext)

  abbrev pub refused_vec : ℕ → Mem CryptoError ℕ
  refused_vec dek_bytes_vec = zeroize dek_bytes_vec >> lift (err decryption_failed)

  unfoldable pub with_vec : String → Bytes → Bytes → Bytes → Mem CryptoError ℕ
  with_vec normalized key nonce ciphertext = do
    dek_bytes_vec ← alloc (record { to_erase = true; content = key })
    if not (eqb (length key) 32)
        then refused_vec dek_bytes_vec
        else with_dek normalized dek_bytes_vec nonce ciphertext

  unfoldable pub decrypt_envelope_in : KekStore C → EncryptedEnvelope → Mem CryptoError ℕ
  decrypt_envelope_in st env = do
    ciphertext ← lift (b64_field x env.ciphertext_b64)
    nonce ← lift (b64_field x env.nonce_b64)
    encrypted_dek ← lift (b64_field x env.encrypted_dek_b64)
    dek_nonce ← lift (b64_field x env.dek_nonce_b64)
    lift
        (fail_if (not (eqb (length nonce) 12) || not (eqb (length dek_nonce) 12)) decryption_failed)
    let algorithm = algorithm_of env
    let normalized = normalize algorithm
    lift (validate_primitive_compliance normalized strategis)
    kek ← lift (ok_or unknown_key_id (resolve_raw st env.key_id))
    let try_decrypt = unwrap_key x algorithm normalized kek dek_nonce encrypted_dek
    let aad_canonical = aad_bytes env.tenant_id env.purpose env.key_id normalized
    key ← lift (or_legacy env try_decrypt (try_decrypt aad_canonical))
    with_vec normalized key nonce ciphertext
