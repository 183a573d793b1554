-- ===== src/Envelope/Supported.antt =====
-- Which algorithms `encrypt_envelope` of src/crypto/envelope.rs serves, and how it refuses others.
use secret_management.Prelude.{
  ==_of_ne, ℕ, suc, ◌<◌, ◌^◌, String, ◌≡◌, refl, ap, ◌∙◌, ◌⊎◌, inl, inr, [], Bytes, length, arith,
  Result, ok, err, ◌==◌,
}
use Prim.Native.String.{len}
use secret_management.Policy.Laws.{validate-cases}
use secret_management.Std.Text.Case.{normalize, normalize_idem}
use secret_management.Std.Text.{eq_ignore_ascii_case, to_ascii_lowercase, lower_char}
use secret_management.Errors.{CryptoError}
use secret_management.Policy.{
  strategis, is_strategis, is_allowed, not_allowed, validate_primitive_compliance,
}
use secret_management.Aad.Injective.{Fits, length-encode}
use secret_management.Crates.{Crates, IsLawful}
use secret_management.Kek.{KekStore}
use secret_management.Symmetric.AesGcm
use secret_management.Symmetric.ChaCha
use secret_management.Envelope.{
  EncryptedEnvelope, unsupported, is_chacha, aad_bytes, encrypt_data, wrap_key, encrypt_envelope,
}

-- The two names for which the program has a cipher.
abbrev pub IsSupported : String → Type 0
IsSupported n = (n ≡ "aes-256-gcm") ⊎ (n ≡ "chacha20-poly1305")

is_chacha-eq : (n : String) → is_chacha n ≡ (normalize n == "chacha20-poly1305")
unfolding is_chacha eq_ignore_ascii_case normalize to_ascii_lowercase lower_char
is_chacha-eq n = refl

pub is_chacha-normalize :
    (a : String) → is_chacha (normalize a) ≡ (normalize a == "chacha20-poly1305")
is_chacha-normalize a =
    is_chacha-eq (normalize a) ∙ ap (λ (s : String). s == "chacha20-poly1305") (normalize_idem a)

validate-IsSupported :
    (a : String)
    → IsSupported (normalize a)
    → validate_primitive_compliance (normalize a) strategis ≡ ok tt
unfolding validate_primitive_compliance is_strategis is_allowed
validate-IsSupported a (inl e) = rw (normalize_idem a, e)
validate-IsSupported a (inr e) = rw (normalize_idem a, e)

module _ {C D : Type 0} (x : Crates C D) where
  encrypt_data-unsupported :
      (a : String) (dek nonce m : Bytes)
      → ¬ IsSupported (normalize a)
      → encrypt_data x a (normalize a) dek nonce m ≡ err (unsupported a)
  unfolding encrypt_data
  encrypt_data-unsupported a dek nonce m other = rw (
    is_chacha-normalize a,
    ==_of_ne (normalize a) "chacha20-poly1305" (λ e. other (inr e)),
    ==_of_ne (normalize a) "aes-256-gcm" (λ e. other (inl e)),
  )

  -- For a name with no cipher, the answer is the policy's refusal or the violation "unsupported
  -- algorithm".
  pub encrypt_envelope_refuses :
      (st : KekStore C) (tenant_id purpose algorithm : String) (m : Bytes) (i : ℕ)
      → ¬ IsSupported (normalize algorithm)
      → ((encrypt_envelope x st tenant_id purpose algorithm m i).0
          ≡ err (not_allowed (normalize algorithm)))
        ⊎ ((encrypt_envelope x st tenant_id purpose algorithm m i).0 ≡ err (unsupported algorithm))
  unfolding encrypt_envelope
  encrypt_envelope_refuses st tenant_id purpose algorithm m i other =
      elim (validate-cases (normalize algorithm) strategis) [
        | inr refused ↦ inl (rw (refused, encrypt_envelope))
        | inl valid ↦ inr (
            rw (
              valid,
              encrypt_envelope,
              encrypt_data-unsupported algorithm (x.random 32 i) (x.random 12 (suc i)) m other,
            ))
      ]

  module _ (lawful : IsLawful x) where
    encrypt_data_total :
        (a : String) (dek nonce m : Bytes)
        → IsSupported (normalize a)
        → length dek ≡ 32
        → length nonce ≡ 12
        → length m < 2 ^ 36
        → (c : Bytes) × (encrypt_data x a (normalize a) dek nonce m ≡ ok c)
    unfolding encrypt_data AesGcm.encrypt AesGcm.new ChaCha.encrypt ChaCha.new
    encrypt_data_total a dek nonce m (inl e) p q r =
        let (c, sealed) = lawful.aes.seals dek nonce m [] p q r (omega arith) in
        (c, rw (is_chacha-normalize a, e, q, sealed))
    encrypt_data_total a dek nonce m (inr e) p q r =
        let (c, sealed) = lawful.chacha.seals dek nonce m [] p q r (omega arith) in
        (c, rw (is_chacha-normalize a, e, q, sealed))

    wrap_key_total :
        (a : String) (kek nonce dek aad : Bytes)
        → IsSupported (normalize a)
        → length kek ≡ 32
        → length nonce ≡ 12
        → length dek < 2 ^ 36
        → length aad < 2 ^ 36
        → (c : Bytes) × (wrap_key x (normalize a) kek nonce dek aad ≡ ok c)
    unfolding wrap_key AesGcm.encrypt AesGcm.new ChaCha.encrypt ChaCha.new
    wrap_key_total a kek nonce dek aad (inl e) p q r s =
        let (c, sealed) = lawful.aes.seals kek nonce dek aad p q r s in
        (c, rw (is_chacha-normalize a, e, q, sealed))
    wrap_key_total a kek nonce dek aad (inr e) p q r s =
        let (c, sealed) = lawful.chacha.seals kek nonce dek aad p q r s in
        (c, rw (is_chacha-normalize a, e, q, sealed))

    length-aad_bytes :
        (t p k a : String)
        → Fits t
        → Fits p
        → Fits k
        → IsSupported a
        → length (aad_bytes t p k a) < 2 ^ 36
    unfolding aad_bytes
    length-aad_bytes t p k a ht hp hk (inl e) = omega (
      arith,
      length-encode (record { tenant_id = t; purpose = p; key_id = k; algorithm = a }),
      ap len e,
    )
    length-aad_bytes t p k a ht hp hk (inr e) = omega (
      arith,
      length-encode (record { tenant_id = t; purpose = p; key_id = k; algorithm = a }),
      ap len e,
    )

    -- With crates that keep their laws: for a name with a cipher, a current key of 32 bytes, a tenant,
    -- purpose and key id below 4 GiB and a payload below 2^36 bytes, encryption succeeds, and draws
    -- three times.
    pub encrypt_envelope_total :
        (st : KekStore C) (tenant_id purpose algorithm : String) (m : Bytes) (i : ℕ)
        → IsSupported (normalize algorithm)
        → length st.current_raw ≡ 32
        → Fits tenant_id × Fits purpose × Fits st.current_id
        → length m < 2 ^ 36
        → (env : EncryptedEnvelope) × ◌≡◌ {A = Result CryptoError EncryptedEnvelope × ℕ}
            (encrypt_envelope x st tenant_id purpose algorithm m i)
            (ok env, suc (suc (suc i)))
    unfolding encrypt_envelope
    encrypt_envelope_total st tenant_id purpose algorithm m i named key32 (ft, fp, fk) short =
        let n = normalize algorithm in
        let (c, data_sealed) =
          encrypt_data_total algorithm (x.random 32 i) (x.random 12 (suc i)) m named
            (lawful.length-random 32 i) (lawful.length-random 12 (suc i)) short in
        let (ed, key_wrapped) =
          wrap_key_total algorithm st.current_raw (x.random 12 (suc (suc i))) (x.random 32 i)
            (aad_bytes tenant_id purpose st.current_id n) named key32
            (lawful.length-random 12 (suc (suc i))) (omega (arith, lawful.length-random 32 i))
            (length-aad_bytes tenant_id purpose st.current_id n ft fp fk named) in
        (
          record {
            ciphertext_b64 = x.b64_encode c;
            nonce_b64 = x.b64_encode (x.random 12 (suc i));
            encrypted_dek_b64 = x.b64_encode ed;
            dek_nonce_b64 = x.b64_encode (x.random 12 (suc (suc i)));
            key_id = st.current_id;
            tenant_id = tenant_id;
            purpose = purpose;
            algorithm = n;
          },
          rw (validate-IsSupported algorithm named, encrypt_envelope, data_sealed, key_wrapped),
        )
