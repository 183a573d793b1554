-- ===== src/Envelope/Legacy.antt =====
-- Old envelopes in src/crypto/envelope.rs, whose key was wrapped under the key id alone.
use secret_management.Prelude.{
  ◌≡◌, sym, ap, ◌∙◌, Bytes, IsBytes, length, Result, ok, err, some, true,
}
use secret_management.Std.Utf8.{as_bytes}
use secret_management.Std.Text.Case.{normalize}
use secret_management.Errors.{CryptoError, decryption_failed}
use secret_management.Policy.{strategis, validate_primitive_compliance}
use secret_management.Crates.{Crates, IsLawful, IsAuthentic}
use secret_management.Kek.{KekStore, resolve_raw}
use secret_management.Envelope.{EncryptedEnvelope, aad_bytes, encrypt_data, wrap_key}
use secret_management.Envelope.Decrypt.{
  algorithm_of, is_legacy, or_legacy, unwrap_key, decrypt_envelope,
}
use secret_management.Envelope.Sealed.{
  encrypt_data-HasCipher, decrypt_data-encrypt_data, unwrap_key-wrap_key, encrypt_data-IsBytes,
  wrap_key-IsBytes,
}
use secret_management.Envelope.RoundTrip.{open_envelope_lem}
use secret_management.Envelope.Binding.{aad_bytes-ne-key_id, unwrap_key-refuses}

or_legacy_second :
    (env : EncryptedEnvelope) (f : Bytes → Result CryptoError Bytes) (aad v : Bytes)
    → is_legacy env ≡ true
    → f aad ≡ err decryption_failed
    → f (as_bytes env.key_id) ≡ ok v
    → or_legacy env f (f aad) ≡ ok v
unfolding or_legacy
or_legacy_second env f aad v old p q = rw (p, old) q

module _ {C D : Type 0} (x : Crates C D) where
  -- An envelope of the old format: the payload `m` under the data key `dek`, and that under `kek`
  -- with the key id as associated data.
  pub record IsOldSealed (kek dek m : Bytes) (env : EncryptedEnvelope) : Type 0 where
    pub nonce : Bytes
    pub dek_nonce : Bytes
    pub ciphertext : Bytes
    pub encrypted_dek : Bytes
    pub length_dek : length dek ≡ 32
    pub length_nonce : length nonce ≡ 12
    pub length_dek_nonce : length dek_nonce ≡ 12
    pub payload_IsBytes : IsBytes m
    pub dek_IsBytes : IsBytes dek
    pub nonce_IsBytes : IsBytes nonce
    pub dek_nonce_IsBytes : IsBytes dek_nonce
    pub data_sealed :
        encrypt_data x (algorithm_of env) (normalize (algorithm_of env)) dek nonce m ≡ ok ciphertext
    pub key_wrapped :
        wrap_key x (normalize (algorithm_of env)) kek dek_nonce dek (as_bytes env.key_id)
        ≡ ok encrypted_dek
    pub ciphertext_field : env.ciphertext_b64 ≡ x.b64_encode ciphertext
    pub nonce_field : env.nonce_b64 ≡ x.b64_encode nonce
    pub encrypted_dek_field : env.encrypted_dek_b64 ≡ x.b64_encode encrypted_dek
    pub dek_nonce_field : env.dek_nonce_b64 ≡ x.b64_encode dek_nonce

  module _ (lawful : IsLawful x) (authentic : IsAuthentic x) where
    -- An envelope of the old format, with an approved algorithm, is opened by a store that resolves its
    -- key id to the wrapping key, provided that its tenant, purpose or algorithm is empty. The crates
    -- keep their laws, and a cipher refuses a ciphertext under other associated data than its own.
    pub decrypt_old :
        (st : KekStore C) (kek dek m : Bytes) (env : EncryptedEnvelope)
        → IsOldSealed kek dek m env
        → is_legacy env ≡ true
        → validate_primitive_compliance (normalize (algorithm_of env)) strategis ≡ ok tt
        → resolve_raw st env.key_id ≡ some kek
        → decrypt_envelope x st env ≡ ok m
    unfolding decrypt_envelope
    decrypt_old st kek dek m env s old valid known =
        let a = algorithm_of env in
        let n = normalize a in
        let cipher = encrypt_data-HasCipher x a n dek s.nonce m s.ciphertext s.data_sealed in
        let aad = aad_bytes env.tenant_id env.purpose env.key_id n in
        let opened =
          open_envelope_lem x lawful st env s.ciphertext s.nonce s.encrypted_dek s.dek_nonce kek dek
            m s.length_nonce s.length_dek_nonce valid known
            (or_legacy_second env (unwrap_key x a n kek s.dek_nonce s.encrypted_dek) aad dek old
              (unwrap_key-refuses x lawful authentic a n kek s.dek_nonce dek (as_bytes env.key_id)
                aad s.encrypted_dek cipher s.key_wrapped
                (λ e. aad_bytes-ne-key_id env.tenant_id env.purpose env.key_id n (sym e)))
              (unwrap_key-wrap_key x lawful a n kek s.dek_nonce dek (as_bytes env.key_id)
                s.encrypted_dek cipher s.key_wrapped))
            s.length_dek
            (decrypt_data-encrypt_data x lawful a n dek s.nonce m s.ciphertext s.data_sealed) in
        let d1 =
          ap x.b64_decode s.ciphertext_field
          ∙ lawful.b64_decode-encode s.ciphertext (
              encrypt_data-IsBytes x lawful a n dek s.nonce m s.ciphertext s.payload_IsBytes
                s.data_sealed) in
        let d2 = ap x.b64_decode s.nonce_field ∙ lawful.b64_decode-encode s.nonce s.nonce_IsBytes in
        let d3 =
          ap x.b64_decode s.encrypted_dek_field
          ∙ lawful.b64_decode-encode s.encrypted_dek (
              wrap_key-IsBytes x lawful n kek s.dek_nonce dek (as_bytes env.key_id) s.encrypted_dek
                s.dek_IsBytes s.key_wrapped) in
        let d4 =
          ap x.b64_decode s.dek_nonce_field
          ∙ lawful.b64_decode-encode s.dek_nonce s.dek_nonce_IsBytes in
        rw (d1, decrypt_envelope, d2, d3, d4) opened
