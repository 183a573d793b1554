-- ===== src/Envelope/Errors.antt =====
-- The errors of `decrypt_envelope` in src/crypto/envelope.rs, and what each says of the envelope.
use secret_management.Prelude.{
  Fails, Fails-bind, Fails-if, Fails-map_err, Fails-fail_if, Fails-ok_or, String, ◌≡◌, ◌⊎◌, inl,
  inr, Bytes, Result, ok, err, ok_or, none, ◌==◌,
}
use secret_management.Errors.{
  CryptoError, decryption_failed, invalid_base64, unknown_key_id, policy_violation,
}
use secret_management.Policy.{strategis, validate_primitive_compliance, not_allowed}
use secret_management.Policy.Laws.{validate-cases}
use secret_management.Crates.{Crates}
use secret_management.Kek.{KekStore, resolve_raw}
use secret_management.Std.Utf8.{as_bytes}
use secret_management.Envelope.{EncryptedEnvelope, is_chacha, unsupported}
use secret_management.Envelope.Decrypt.{
  is_legacy, or_legacy, unwrap_key, decrypt_data, b64_field, open_envelope, decrypt_envelope,
}

module _ {C D : Type 0} (x : Crates C D) (st : KekStore C) (env : EncryptedEnvelope) where
  abbrev pub NotBase64 : String → Type 0
  NotBase64 s = x.b64_decode s ≡ none

  -- What an error of `decrypt_envelope` says.
  abbrev pub Explains : CryptoError → Type 0
  Explains invalid_base64 =
      NotBase64 env.ciphertext_b64
      ⊎ NotBase64 env.nonce_b64
      ⊎ NotBase64 env.encrypted_dek_b64
      ⊎ NotBase64 env.dek_nonce_b64
  Explains unknown_key_id = resolve_raw st env.key_id ≡ none
  Explains decryption_failed = Unit
  Explains (policy_violation _) = Unit
  Explains _ = ⊥

  b64_field-Fails :
      (s : String) → (NotBase64 s → Explains invalid_base64) → Fails Explains (b64_field x s)
  unfolding b64_field
  b64_field-Fails s h = Fails-ok_or Explains invalid_base64 (x.b64_decode s) h

  unwrap_key-Fails :
      (a n : String) (kek dn ed aad : Bytes) → Fails Explains (unwrap_key x a n kek dn ed aad)
  unfolding unwrap_key unsupported
  unwrap_key-Fails a n kek dn ed aad =
      Fails-if Explains (is_chacha n) _ _
        (Fails-map_err Explains (λ _. decryption_failed) _ (λ _. tt))
        (Fails-if Explains (n == "aes-256-gcm") _ _
          (Fails-map_err Explains (λ _. decryption_failed) _ (λ _. tt)) tt)

  decrypt_data-Fails :
      (n : String) (dek nonce c : Bytes) → Fails Explains (decrypt_data x n dek nonce c)
  unfolding decrypt_data
  decrypt_data-Fails n dek nonce c =
      Fails-if Explains (is_chacha n) _ _
        (Fails-map_err Explains (λ _. decryption_failed) _ (λ _. tt))
        (Fails-map_err Explains (λ _. decryption_failed) _ (λ _. tt))

  validate-Fails : (n : String) → Fails Explains (validate_primitive_compliance n strategis)
  unfolding not_allowed
  validate-Fails n = elim (validate-cases n strategis) [ inl e ↦ rw e tt | inr e ↦ rw e tt ]

  or_legacy-Fails :
      (f : Bytes → Result CryptoError Bytes) (r : Result CryptoError Bytes)
      → ((aad : Bytes) → Fails Explains (f aad))
      → Fails Explains (or_legacy env f r)
  unfolding or_legacy
  or_legacy-Fails f (ok v) h = tt
  or_legacy-Fails f (err e) h =
      Fails-if Explains (is_legacy env) (f (as_bytes env.key_id)) (err decryption_failed)
        (h (as_bytes env.key_id)) tt

  resolve-Fails : Fails Explains (ok_or unknown_key_id (resolve_raw st env.key_id))
  resolve-Fails = Fails-ok_or Explains unknown_key_id (resolve_raw st env.key_id) (λ e. e)

  open_envelope-Fails : (c n ed dn : Bytes) → Fails Explains (open_envelope x st env c n ed dn)
  unfolding open_envelope
  open_envelope-Fails c n ed dn =
      Fails-bind Explains _ _ (Fails-fail_if Explains _ decryption_failed tt) λ _.
        Fails-bind Explains _ _ (validate-Fails _) λ _. Fails-bind Explains _ _ resolve-Fails λ kek.
          Fails-bind Explains _ _ (or_legacy-Fails _ _ (unwrap_key-Fails _ _ kek dn ed)) λ dek.
            Fails-bind Explains _ _ (Fails-fail_if Explains _ decryption_failed tt)
              λ _. decrypt_data-Fails _ dek n c

  -- An error of `decrypt_envelope` is one of four: invalid Base64, unknown key id, decryption failed,
  -- policy violation. The first means that one of the four fields is not Base64, the second that the
  -- store has no key for the id.
  pub decrypt_envelope-Fails : Fails Explains (decrypt_envelope x st env)
  unfolding decrypt_envelope
  decrypt_envelope-Fails = Fails-bind Explains _ _ (b64_field-Fails env.ciphertext_b64 inl) λ c.
      Fails-bind Explains _ _ (b64_field-Fails env.nonce_b64 (λ h. inr (inl h))) λ n.
        Fails-bind Explains _ _ (b64_field-Fails env.encrypted_dek_b64 (λ h. inr (inr (inl h))))
          λ ed.
            Fails-bind Explains _ _ (b64_field-Fails env.dek_nonce_b64 (λ h. inr (inr (inr h))))
              λ dn. open_envelope-Fails c n ed dn
