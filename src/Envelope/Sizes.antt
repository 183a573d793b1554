-- ===== src/Envelope/Sizes.antt =====
-- How long the texts are that `encrypt_envelope` of src/crypto/envelope.rs puts into an envelope.
use Prim.Native.String.{len}
use secret_management.Prelude.{
  ℕ, suc, ◌+◌, ◌*◌, ◌/◌, String, ◌≡◌, ap, ◌∙◌, inl, inr, [], Bytes, IsBytes, length, arith, ok,
  Bool-cases,
}
use secret_management.Std.Text.Case.{normalize}
use secret_management.Crates.{Crates, IsLawful, IsSized}
use secret_management.Kek.{KekStore}
use secret_management.Symmetric.Laws.{aes_length, chacha_length}
use secret_management.Envelope.{EncryptedEnvelope, is_chacha, aad_bytes, encrypt_data, wrap_key}
use secret_management.Envelope.Sealed.{IsSealed, encrypt_data-IsBytes, wrap_key-IsBytes}

module _ {C D : Type 0} (x : Crates C D) (sized : IsSized x) where
  length-encrypt_data :
      (algorithm normalized : String) (dek nonce m c : Bytes)
      → encrypt_data x algorithm normalized dek nonce m ≡ ok c
      → length c ≡ length m + 16
  unfolding encrypt_data
  length-encrypt_data algorithm normalized dek nonce m c e =
      elim (Bool-cases (is_chacha normalized)) [
        | inl cha ↦ chacha_length x.chacha sized.chacha dek nonce m [] c (ground arith)
        | inr other ↦ aes_length x.aes sized.aes dek nonce m [] c (ground arith)
      ]

  length-wrap_key :
      (normalized : String) (kek nonce dek aad c : Bytes)
      → wrap_key x normalized kek nonce dek aad ≡ ok c
      → length c ≡ length dek + 16
  unfolding wrap_key
  length-wrap_key normalized kek nonce dek aad c e = elim (Bool-cases (is_chacha normalized)) [
    | inl cha ↦ chacha_length x.chacha sized.chacha kek nonce dek aad c (ground arith)
    | inr other ↦ aes_length x.aes sized.aes kek nonce dek aad c (ground arith)
  ]

  -- The lengths of the four texts of an envelope.
  pub record HasSizes (m : Bytes) (env : EncryptedEnvelope) : Type 0 where
    pub ciphertext : len env.ciphertext_b64 ≡ (length m + 18) / 3 * 4
    pub nonce : len env.nonce_b64 ≡ 16
    pub encrypted_dek : len env.encrypted_dek_b64 ≡ 64
    pub dek_nonce : len env.dek_nonce_b64 ≡ 16

  pub IsSealed-HasSizes :
      IsLawful x
      → (st : KekStore C) (tenant_id purpose algorithm : String) (m : Bytes) (i : ℕ)
        (env : EncryptedEnvelope)
      → IsBytes m
      → IsSealed x st tenant_id purpose algorithm m i env
      → HasSizes m env
  IsSealed-HasSizes lawful st tenant_id purpose algorithm m i env bytes s =
      let normalized = normalize algorithm in
      let nonce = x.random 12 (suc i) in
      let dek_nonce = x.random 12 (suc (suc i)) in
      let dek = x.random 32 i in
      let wrapped_IsBytes =
        wrap_key-IsBytes x lawful normalized st.current_raw dek_nonce dek
          (aad_bytes tenant_id purpose st.current_id normalized) s.encrypted_dek
          (lawful.random-IsBytes 32 i) s.key_wrapped in
      record {
        ciphertext =
            ap (λ (v : EncryptedEnvelope). len v.ciphertext_b64) s.same
            ∙ sized.len-b64_encode s.ciphertext (
                encrypt_data-IsBytes x lawful algorithm normalized dek nonce m s.ciphertext bytes
                  s.data_sealed)
            ∙ omega (
              arith,
              length-encrypt_data algorithm normalized dek nonce m s.ciphertext s.data_sealed,
            );
        nonce =
            ap (λ (v : EncryptedEnvelope). len v.nonce_b64) s.same
            ∙ sized.len-b64_encode nonce (lawful.random-IsBytes 12 (suc i))
            ∙ omega (arith, lawful.length-random 12 (suc i));
        encrypted_dek =
            ap (λ (v : EncryptedEnvelope). len v.encrypted_dek_b64) s.same
            ∙ sized.len-b64_encode s.encrypted_dek wrapped_IsBytes
            ∙ omega (
              arith,
              lawful.length-random 32 i,
              length-wrap_key normalized st.current_raw dek_nonce dek
                  (aad_bytes tenant_id purpose st.current_id normalized) s.encrypted_dek
                  s.key_wrapped,
            );
        dek_nonce =
            ap (λ (v : EncryptedEnvelope). len v.dek_nonce_b64) s.same
            ∙ sized.len-b64_encode dek_nonce (lawful.random-IsBytes 12 (suc (suc i)))
            ∙ omega (arith, lawful.length-random 12 (suc (suc i)));
      }
