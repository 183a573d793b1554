-- ===== src/Envelope/Context.antt =====
-- An envelope of src/crypto/envelope.rs is opened in the context of its encryption, and in no other.
use secret_management.Prelude.{
  some_inj, ℕ, suc, String, ◌≡◌, ◌≢◌, sym, ap, ◌∙◌, ◌⊎◌, inl, inr, Bytes, ok, err, subst, some,
}
use secret_management.Std.Utf8.{as_bytes}
use secret_management.Std.Text.Case.{normalize, normalize_idem}
use secret_management.Errors.{decryption_failed}
use secret_management.Aad.Injective.{Fits}
use secret_management.Crates.{Crates, IsLawful, IsAuthentic}
use secret_management.Kek.{KekStore, resolve_raw}
use secret_management.Envelope.{EncryptedEnvelope, aad_bytes, encrypt_envelope}
use secret_management.Envelope.Decrypt.{algorithm_of, or_legacy, unwrap_key, decrypt_envelope}
use secret_management.Envelope.Sealed.{
  HasCipher, encrypt_data-HasCipher, wrap_key-IsBytes, IsSealed, encrypt_envelope-IsSealed,
}
use secret_management.Envelope.RoundTrip.{algorithm_of-HasCipher}
use secret_management.Envelope.Binding.{
  aad_bytes-ne-key_id, aad_bytes_inj, HasCipher-IsSupported, Fits-IsSupported, or_legacy_refused,
  unwrap_key-refuses,
}
use secret_management.Envelope.Opened.{decrypt_envelope-IsOpened}

-- The parts of an envelope that carry the wrapped key.
pub record SameKey (a b : EncryptedEnvelope) : Type 0 where
  pub encrypted_dek : a.encrypted_dek_b64 ≡ b.encrypted_dek_b64
  pub dek_nonce : a.dek_nonce_b64 ≡ b.dek_nonce_b64
  pub key_id : a.key_id ≡ b.key_id
  pub algorithm : a.algorithm ≡ b.algorithm

not_moved : {a b c d : String} → (a ≢ b) ⊎ (c ≢ d) → (b ≡ a) × (d ≡ c) → ⊥
not_moved (inl h) p = h (sym p.0)
not_moved (inr h) p = h (sym p.1)

module _ {C D : Type 0} (x : Crates C D) (lawful : IsLawful x) (authentic : IsAuthentic x) where
  module _ (st st' : KekStore C) (tenant_id purpose algorithm : String) (m : Bytes) (i : ℕ)
      (env env' : EncryptedEnvelope) where
    -- Where the associated data differ, both attempts at the key are refused.
    refused_elsewhere :
        (s : IsSealed x st tenant_id purpose algorithm m i env)
        → aad_bytes tenant_id purpose st.current_id (normalize algorithm)
          ≢ aad_bytes env'.tenant_id env'.purpose st.current_id (normalize algorithm)
        → env'.key_id ≡ st.current_id
        → or_legacy env'
            (unwrap_key x
              (normalize algorithm)
              (normalize algorithm)
              st.current_raw
              (x.random 12 (suc (suc i)))
              s.encrypted_dek)
            (unwrap_key x
              (normalize algorithm)
              (normalize algorithm)
              st.current_raw
              (x.random 12 (suc (suc i)))
              s.encrypted_dek
              (aad_bytes env'.tenant_id env'.purpose st.current_id (normalize algorithm)))
          ≡ err decryption_failed
    refused_elsewhere s other id =
        let n = normalize algorithm in
        let aad = aad_bytes tenant_id purpose st.current_id n in
        let cipher =
          encrypt_data-HasCipher x algorithm n (x.random 32 i) (x.random 12 (suc i)) m s.ciphertext
            s.data_sealed in
        let refuses = λ (aad' : Bytes) (h : aad ≢ aad').
          unwrap_key-refuses x lawful authentic n n st.current_raw (x.random 12 (suc (suc i)))
            (x.random 32 i) aad aad' s.encrypted_dek cipher s.key_wrapped h in
        or_legacy_refused env' _ _ (refuses _ other) (
          rw id (
            refuses (as_bytes st.current_id)
              (aad_bytes-ne-key_id tenant_id purpose st.current_id n)))

    sealed-stays_in_context :
        IsSealed x st tenant_id purpose algorithm m i env
        → SameKey env' env
        → Fits tenant_id × Fits purpose × Fits st.current_id
        → Fits env'.tenant_id × Fits env'.purpose
        → (env'.tenant_id ≢ tenant_id) ⊎ (env'.purpose ≢ purpose)
        → resolve_raw st' st.current_id ≡ some st.current_raw
        → (m' : Bytes) → decrypt_envelope x st' env' ≢ ok m'
    sealed-stays_in_context s same fits fits' moved known m' e =
        let n = normalize algorithm in
        let o = decrypt_envelope-IsOpened x st' env' m' e in
        let cipher =
          encrypt_data-HasCipher x algorithm n (x.random 32 i) (x.random 12 (suc i)) m s.ciphertext
            s.data_sealed in
        let id : env'.key_id ≡ st.current_id =
          same.key_id ∙ ap (λ (r : EncryptedEnvelope). r.key_id) s.same in
        let named : env'.algorithm ≡ n =
          same.algorithm ∙ ap (λ (r : EncryptedEnvelope). r.algorithm) s.same in
        let alg : algorithm_of env' ≡ n =
          algorithm_of-HasCipher env' (subst HasCipher (sym named) cipher) ∙ named in
        let norm : normalize (algorithm_of env') ≡ n =
          ap normalize alg ∙ normalize_idem algorithm in
        let kek : o.kek ≡ st.current_raw =
          some_inj (sym o.known ∙ ap (resolve_raw st') id ∙ known) in
        let ed : o.encrypted_dek ≡ s.encrypted_dek = some_inj (
          sym o.encrypted_dek_decoded
          ∙ ap x.b64_decode
              (same.encrypted_dek ∙ ap (λ (r : EncryptedEnvelope). r.encrypted_dek_b64) s.same)
          ∙ lawful.b64_decode-encode s.encrypted_dek (
              wrap_key-IsBytes x lawful n st.current_raw (x.random 12 (suc (suc i))) (x.random 32 i)
                (aad_bytes tenant_id purpose st.current_id n) s.encrypted_dek
                (lawful.random-IsBytes 32 i) s.key_wrapped)) in
        let dn : o.dek_nonce ≡ x.random 12 (suc (suc i)) = some_inj (
          sym o.dek_nonce_decoded
          ∙ ap x.b64_decode
              (same.dek_nonce ∙ ap (λ (r : EncryptedEnvelope). r.dek_nonce_b64) s.same)
          ∙ lawful.b64_decode-encode (x.random 12 (suc (suc i)))
              (lawful.random-IsBytes 12 (suc (suc i)))) in
        let fit : Fits n = Fits-IsSupported n (HasCipher-IsSupported algorithm cipher) in
        let other : aad_bytes tenant_id purpose st.current_id n
            ≢ aad_bytes env'.tenant_id env'.purpose st.current_id n =
          λ p. not_moved moved (
            aad_bytes_inj tenant_id purpose st.current_id n env'.tenant_id env'.purpose
              (fits.0, fits.1, fits.2, fit) fits'.0 fits'.1 p) in
        cc (refused_elsewhere s other id, o.unwrapped, alg, norm, id, kek, ed, dn)

  -- An envelope that carries the wrapped key of another, with the same key id and algorithm, but
  -- names another tenant or another purpose, is not opened by any store that resolves the id to the
  -- wrapping key, whatever its payload. The fields are below 4 GiB, the crates keep their laws, and a
  -- cipher refuses a ciphertext under other associated data than its own.
  pub stays_in_context :
      (st st' : KekStore C) (tenant_id purpose algorithm : String) (m : Bytes) (i j : ℕ)
      (env env' : EncryptedEnvelope)
      → encrypt_envelope x st tenant_id purpose algorithm m i ≡ (ok env, j)
      → SameKey env' env
      → Fits tenant_id × Fits purpose × Fits st.current_id
      → Fits env'.tenant_id × Fits env'.purpose
      → (env'.tenant_id ≢ tenant_id) ⊎ (env'.purpose ≢ purpose)
      → resolve_raw st' st.current_id ≡ some st.current_raw
      → (m' : Bytes) → decrypt_envelope x st' env' ≢ ok m'
  stays_in_context st st' tenant_id purpose algorithm m i j env env' e =
      sealed-stays_in_context st st' tenant_id purpose algorithm m i env env'
        (encrypt_envelope-IsSealed x st tenant_id purpose algorithm m i env j e)
