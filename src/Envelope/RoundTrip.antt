-- ===== src/Envelope/RoundTrip.antt =====
-- Decrypting what was encrypted gives the payload back, in src/crypto/envelope.rs.
use secret_management.Prelude.{
  ℕ, suc, String, ◌≡◌, refl, ap, ◌∙◌, inl, inr, false, Bytes, IsBytes, length, arith, Result, ok,
  ◌==◌, eq_iff, some, Bool-cases,
}
use mathlib.Core.Bool.{false≢true}
use secret_management.Std.Text.Case.{normalize, normalize_idem}
use secret_management.Std.Text.{trim, eq_ignore_ascii_case, to_ascii_lowercase, lower_char}
use secret_management.Errors.{CryptoError}
use secret_management.Policy.{strategis, validate_primitive_compliance}
use secret_management.Crates.{Crates, IsLawful}
use secret_management.Kek.{KekStore, resolve_raw}
use secret_management.Envelope.{EncryptedEnvelope, is_chacha, aad_bytes, encrypt_envelope}
use secret_management.Envelope.Decrypt.{
  algorithm_of, or_legacy, unwrap_key, decrypt_data, open_envelope, decrypt_envelope,
}
use secret_management.Envelope.Sealed.{
  HasCipher, encrypt_data-HasCipher, decrypt_data-encrypt_data, unwrap_key-wrap_key,
  encrypt_data-IsBytes, wrap_key-IsBytes, IsSealed, encrypt_envelope-IsSealed,
}

nil_has_none : HasCipher "" → ⊥
unfolding is_chacha trim eq_ignore_ascii_case to_ascii_lowercase lower_char
nil_has_none (inl h) = false≢true h
nil_has_none (inr h) = ground (arith, eq_iff "" "aes-256-gcm")

HasCipher-ne-nil : (n : String) → HasCipher n → (n == "") ≡ false
HasCipher-ne-nil n h = elim (Bool-cases (n == "")) [
  | inr e ↦ e
  | inl e ↦ absurd (nil_has_none (rw ((eq_iff n "").0 e) at h))
]

or_legacy-ok :
    (env : EncryptedEnvelope) (f : Bytes → Result CryptoError Bytes) (v : Bytes)
    → or_legacy env f (ok v) ≡ ok v
unfolding or_legacy
or_legacy-ok env f v = refl

-- The algorithm of an envelope that names one with a cipher.
pub algorithm_of-HasCipher :
    (env : EncryptedEnvelope) → HasCipher env.algorithm → algorithm_of env ≡ env.algorithm
unfolding algorithm_of
algorithm_of-HasCipher env h = rw (HasCipher-ne-nil env.algorithm h)

module _ {C D : Type 0} (x : Crates C D) (lawful : IsLawful x) where
  -- What the steps of `open_envelope` need, one after the other.
  pub open_envelope_lem :
      (st : KekStore C) (env : EncryptedEnvelope) (c n ed dn kek dek m : Bytes)
      → length n ≡ 12
      → length dn ≡ 12
      → validate_primitive_compliance (normalize (algorithm_of env)) strategis ≡ ok tt
      → resolve_raw st env.key_id ≡ some kek
      → or_legacy env (unwrap_key x (algorithm_of env) (normalize (algorithm_of env)) kek dn ed) (
          unwrap_key x
            (algorithm_of env)
            (normalize (algorithm_of env))
            kek
            dn
            ed
            (aad_bytes env.tenant_id env.purpose env.key_id (normalize (algorithm_of env))))
        ≡ ok dek
      → length dek ≡ 32
      → decrypt_data x (normalize (algorithm_of env)) dek n c ≡ ok m
      → open_envelope x st env c n ed dn ≡ ok m
  unfolding open_envelope
  open_envelope_lem st env c n ed dn kek dek m ln ldn valid known unwrapped ldek opened =
      rw (ln, open_envelope, ldn, valid, known, unwrapped, ldek) opened

  module _ (st st' : KekStore C) (tenant_id purpose algorithm : String) (m : Bytes) (i : ℕ)
      (env : EncryptedEnvelope) where
    -- The envelope with its fields written out.
    abbrev sealed_of : IsSealed x st tenant_id purpose algorithm m i env → EncryptedEnvelope
    sealed_of s = record {
      ciphertext_b64 = x.b64_encode s.ciphertext;
      nonce_b64 = x.b64_encode (x.random 12 (suc i));
      encrypted_dek_b64 = x.b64_encode s.encrypted_dek;
      dek_nonce_b64 = x.b64_encode (x.random 12 (suc (suc i)));
      key_id = st.current_id;
      tenant_id = tenant_id;
      purpose = purpose;
      algorithm = normalize algorithm;
    }

    -- A store that knows the key under the id with which it was wrapped opens the envelope.
    decrypt-IsSealed :
        IsBytes m
        → IsSealed x st tenant_id purpose algorithm m i env
        → resolve_raw st' st.current_id ≡ some st.current_raw
        → decrypt_envelope x st' env ≡ ok m
    unfolding decrypt_envelope
    decrypt-IsSealed bytes s known =
        let n = normalize algorithm in
        let cipher =
          encrypt_data-HasCipher x algorithm n (x.random 32 i) (x.random 12 (suc i)) m s.ciphertext
            s.data_sealed in
        let alg : algorithm_of (sealed_of s) ≡ n = algorithm_of-HasCipher (sealed_of s) cipher in
        let norm : normalize (algorithm_of (sealed_of s)) ≡ n =
          ap normalize alg ∙ normalize_idem algorithm in
        rw
          (
            s.same,
            decrypt_envelope,
            lawful.b64_decode-encode s.ciphertext (
                encrypt_data-IsBytes x lawful algorithm n (x.random 32 i) (x.random 12 (suc i)) m
                  s.ciphertext bytes s.data_sealed),
            lawful.b64_decode-encode (x.random 12 (suc i)) (lawful.random-IsBytes 12 (suc i)),
            lawful.b64_decode-encode s.encrypted_dek (
                wrap_key-IsBytes x lawful n st.current_raw (x.random 12 (suc (suc i)))
                  (x.random 32 i) (aad_bytes tenant_id purpose st.current_id n) s.encrypted_dek
                  (lawful.random-IsBytes 32 i) s.key_wrapped),
            lawful.b64_decode-encode (x.random 12 (suc (suc i)))
                (lawful.random-IsBytes 12 (suc (suc i))),
          )
          (open_envelope_lem st' (sealed_of s) s.ciphertext (x.random 12 (suc i)) s.encrypted_dek
            (x.random 12 (suc (suc i))) st.current_raw (x.random 32 i) m
            (lawful.length-random 12 (suc i)) (lawful.length-random 12 (suc (suc i)))
            (rw norm s.compliant) known
            (rw norm (
              rw
                (unwrap_key-wrap_key x lawful (algorithm_of (sealed_of s)) n st.current_raw
                  (x.random 12 (suc (suc i))) (x.random 32 i)
                  (aad_bytes tenant_id purpose st.current_id n) s.encrypted_dek cipher
                  s.key_wrapped)
                (or_legacy-ok (sealed_of s) _ _)))
            (lawful.length-random 32 i)
            (rw norm (
              decrypt_data-encrypt_data x lawful algorithm n (x.random 32 i) (x.random 12 (suc i)) m
                s.ciphertext s.data_sealed)))

  -- With crates that keep their laws: an envelope that `encrypt_envelope` returns for a payload of
  -- bytes is opened, and gives the payload back, by every store that resolves the id of the wrapping
  -- store's current key to that key.
  pub decrypt-encrypt :
      (st st' : KekStore C) (tenant_id purpose algorithm : String) (m : Bytes) (i j : ℕ)
      (env : EncryptedEnvelope)
      → IsBytes m
      → encrypt_envelope x st tenant_id purpose algorithm m i ≡ (ok env, j)
      → resolve_raw st' st.current_id ≡ some st.current_raw
      → decrypt_envelope x st' env ≡ ok m
  decrypt-encrypt st st' tenant_id purpose algorithm m i j env bytes e =
      decrypt-IsSealed st st' tenant_id purpose algorithm m i env bytes
        (encrypt_envelope-IsSealed x st tenant_id purpose algorithm m i env j e)
