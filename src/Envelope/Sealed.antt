-- ===== src/Envelope/Sealed.antt =====
-- What a successful `encrypt_envelope` has done: the two ciphertexts and their place in the envelope.
use secret_management.Prelude.{
  ℕ, suc, String, ◌≡◌, refl, sym, ap, ◌⊎◌, inl, inr, true, [], Bytes, IsBytes, arith, Result, ok,
  err, Bool-cases, ok_inj, eq_iff,
}
use secret_management.Std.Text.Case.{normalize}
use secret_management.Errors.{CryptoError}
use secret_management.Policy.{strategis, validate_primitive_compliance}
use secret_management.Crates.{Crates, IsLawful}
use secret_management.Kek.{KekStore}
use secret_management.Symmetric.Laws.{aes_opens, chacha_opens, aes_IsBytes, chacha_IsBytes}
use secret_management.Envelope.{
  EncryptedEnvelope, Rand, resume, is_chacha, aad_bytes, encrypt_data, wrap_key, encrypt_envelope,
}
use secret_management.Envelope.Decrypt.{unwrap_key, decrypt_data}

resume-eq-ok :
    {A B : Type 0} (r : Result CryptoError A) (i : ℕ) (f : A → Rand B) {b : B} {k : ℕ}
    → ◌≡◌ {A = Result CryptoError B × ℕ} (resume (r, i) f) (ok b, k)
    → (a : A) × (r ≡ ok a) × ◌≡◌ {A = Result CryptoError B × ℕ} (f a i) (ok b, k)
resume-eq-ok (ok a) i f e = (a, refl, e)
resume-eq-ok (err c) i f e = cc

-- The algorithms for which there is a cipher.
abbrev pub HasCipher : String → Type 0
HasCipher normalized = (is_chacha normalized ≡ true) ⊎ (normalized ≡ "aes-256-gcm")

module _ {C D : Type 0} (x : Crates C D) where
  pub encrypt_data-HasCipher :
      (algorithm normalized : String) (dek nonce m c : Bytes)
      → encrypt_data x algorithm normalized dek nonce m ≡ ok c
      → HasCipher normalized
  unfolding encrypt_data
  encrypt_data-HasCipher algorithm normalized dek nonce m c e =
      ground (arith, eq_iff normalized "aes-256-gcm")

  -- What is encrypted is decrypted again, for the payload and for the data key.
  module _ (lawful : IsLawful x) where
    pub decrypt_data-encrypt_data :
        (algorithm normalized : String) (dek nonce m c : Bytes)
        → encrypt_data x algorithm normalized dek nonce m ≡ ok c
        → decrypt_data x normalized dek nonce c ≡ ok m
    unfolding encrypt_data decrypt_data
    decrypt_data-encrypt_data algorithm normalized dek nonce m c e = ground (
      arith,
      aes_opens x.aes lawful.aes dek nonce m [] c,
      chacha_opens x.chacha lawful.chacha dek nonce m [] c,
    )

    pub unwrap_key-wrap_key :
        (algorithm normalized : String) (kek nonce dek aad c : Bytes)
        → HasCipher normalized
        → wrap_key x normalized kek nonce dek aad ≡ ok c
        → unwrap_key x algorithm normalized kek nonce c aad ≡ ok dek
    unfolding wrap_key unwrap_key
    unwrap_key-wrap_key algorithm normalized kek nonce dek aad c h e = ground (
      arith,
      eq_iff normalized "aes-256-gcm",
      aes_opens x.aes lawful.aes kek nonce dek aad c,
      chacha_opens x.chacha lawful.chacha kek nonce dek aad c,
    )

    pub encrypt_data-IsBytes :
        (algorithm normalized : String) (dek nonce m c : Bytes)
        → IsBytes m
        → encrypt_data x algorithm normalized dek nonce m ≡ ok c
        → IsBytes c
    unfolding encrypt_data
    encrypt_data-IsBytes algorithm normalized dek nonce m c h e =
        elim (Bool-cases (is_chacha normalized)) [
          | inl cha ↦ chacha_IsBytes x.chacha lawful.chacha dek nonce m [] c h (ground arith)
          | inr other ↦ aes_IsBytes x.aes lawful.aes dek nonce m [] c h (ground arith)
        ]

    pub wrap_key-IsBytes :
        (normalized : String) (kek nonce dek aad c : Bytes)
        → IsBytes dek
        → wrap_key x normalized kek nonce dek aad ≡ ok c
        → IsBytes c
    unfolding wrap_key
    wrap_key-IsBytes normalized kek nonce dek aad c h e = elim (Bool-cases (is_chacha normalized)) [
      | inl cha ↦ chacha_IsBytes x.chacha lawful.chacha kek nonce dek aad c h (ground arith)
      | inr other ↦ aes_IsBytes x.aes lawful.aes kek nonce dek aad c h (ground arith)
    ]

  -- The parts of the envelope that `encrypt_envelope` returns, from its `i`-th draw on.
  pub record IsSealed (st : KekStore C) (tenant_id purpose algorithm : String) (m : Bytes) (i : ℕ)
      (env : EncryptedEnvelope) : Type 0 where
    pub ciphertext : Bytes
    pub encrypted_dek : Bytes
    pub compliant : validate_primitive_compliance (normalize algorithm) strategis ≡ ok tt
    pub data_sealed :
        encrypt_data x algorithm (normalize algorithm) (x.random 32 i) (x.random 12 (suc i)) m
        ≡ ok ciphertext
    pub key_wrapped :
        wrap_key x
          (normalize algorithm)
          st.current_raw
          (x.random 12 (suc (suc i)))
          (x.random 32 i)
          (aad_bytes tenant_id purpose st.current_id (normalize algorithm))
        ≡ ok encrypted_dek
    pub same : env ≡ record {
      ciphertext_b64 = x.b64_encode ciphertext;
      nonce_b64 = x.b64_encode (x.random 12 (suc i));
      encrypted_dek_b64 = x.b64_encode encrypted_dek;
      dek_nonce_b64 = x.b64_encode (x.random 12 (suc (suc i)));
      key_id = st.current_id;
      tenant_id = tenant_id;
      purpose = purpose;
      algorithm = normalize algorithm;
    }

  module _ (st : KekStore C) (tenant_id purpose algorithm : String) (m : Bytes) (i : ℕ) where
    pub encrypt_envelope-IsSealed :
        (env : EncryptedEnvelope) (j : ℕ)
        → encrypt_envelope x st tenant_id purpose algorithm m i ≡ (ok env, j)
        → IsSealed st tenant_id purpose algorithm m i env
    unfolding encrypt_envelope
    encrypt_envelope-IsSealed env j e =
        let (_, compliant, e1) =
          resume-eq-ok (validate_primitive_compliance (normalize algorithm) strategis) i _ e in
        let (c, data_sealed, e2) =
          resume-eq-ok
            (encrypt_data x algorithm (normalize algorithm) (x.random 32 i) (x.random 12 (suc i)) m)
            (suc (suc i)) _ e1 in
        let (ed, key_wrapped, e3) =
          resume-eq-ok
            (wrap_key x (normalize algorithm) st.current_raw (x.random 12 (suc (suc i)))
              (x.random 32 i) (aad_bytes tenant_id purpose st.current_id (normalize algorithm)))
            (suc (suc (suc i))) _ e2 in
        record {
          ciphertext = c;
          encrypted_dek = ed;
          compliant = compliant;
          data_sealed = data_sealed;
          key_wrapped = key_wrapped;
          same = sym (ok_inj (ap (λ (r : Result CryptoError EncryptedEnvelope × ℕ). r.0) e3));
        }
