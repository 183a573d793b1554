-- ===== src/Envelope/Opened.antt =====
-- What a successful `decrypt_envelope` of src/crypto/envelope.rs has found.
use secret_management.Prelude.{
  ℕ, ◌≡◌, Bytes, length, arith, ok, not, ◌||◌, eqb, some, false, >>=-eq-ok, ok_or-eq-ok,
  fail_if-eq-ok, fail_if, ok_or,
}
use secret_management.Std.Text.Case.{normalize}
use secret_management.Errors.{decryption_failed, unknown_key_id, invalid_base64}
use secret_management.Policy.{strategis, validate_primitive_compliance}
use secret_management.Crates.{Crates}
use secret_management.Kek.{KekStore, resolve_raw}
use secret_management.Envelope.{EncryptedEnvelope, aad_bytes}
use secret_management.Envelope.Decrypt.{
  algorithm_of, or_legacy, unwrap_key, decrypt_data, b64_field, open_envelope, decrypt_envelope,
}

module _ {C D : Type 0} (x : Crates C D) (st : KekStore C) (env : EncryptedEnvelope) where
  pub record IsOpened (m : Bytes) : Type 0 where
    pub ciphertext : Bytes
    pub nonce : Bytes
    pub encrypted_dek : Bytes
    pub dek_nonce : Bytes
    pub kek : Bytes
    pub dek : Bytes
    pub encrypted_dek_decoded : x.b64_decode env.encrypted_dek_b64 ≡ some encrypted_dek
    pub dek_nonce_decoded : x.b64_decode env.dek_nonce_b64 ≡ some dek_nonce
    pub length_nonce : length nonce ≡ 12
    pub length_dek_nonce : length dek_nonce ≡ 12
    pub compliant : validate_primitive_compliance (normalize (algorithm_of env)) strategis ≡ ok tt
    pub known : resolve_raw st env.key_id ≡ some kek
    pub unwrapped :
        or_legacy env
          (unwrap_key x
            (algorithm_of env)
            (normalize (algorithm_of env))
            kek
            dek_nonce
            encrypted_dek)
          (unwrap_key x
            (algorithm_of env)
            (normalize (algorithm_of env))
            kek
            dek_nonce
            encrypted_dek
            (aad_bytes env.tenant_id env.purpose env.key_id (normalize (algorithm_of env))))
        ≡ ok dek
    pub length_dek : length dek ≡ 32
    pub opened : decrypt_data x (normalize (algorithm_of env)) dek nonce ciphertext ≡ ok m

  both_12 : (a b : ℕ) → (not (eqb a 12) || not (eqb b 12)) ≡ false → (a ≡ 12) × (b ≡ 12)
  both_12 a b h = ground arith

  pub decrypt_envelope-IsOpened : (m : Bytes) → decrypt_envelope x st env ≡ ok m → IsOpened m
  unfolding decrypt_envelope open_envelope
  decrypt_envelope-IsOpened m e =
      let n = normalize (algorithm_of env) in
      let (c, _, e1) = >>=-eq-ok (b64_field x env.ciphertext_b64) _ e in
      let (nonce, _, e2) = >>=-eq-ok (b64_field x env.nonce_b64) _ e1 in
      let (ed, p3, e3) = >>=-eq-ok (b64_field x env.encrypted_dek_b64) _ e2 in
      let (dn, p4, e4) = >>=-eq-ok (b64_field x env.dek_nonce_b64) _ e3 in
      let (_, p5, e5) =
        >>=-eq-ok
          (fail_if (not (eqb (length nonce) 12) || not (eqb (length dn) 12)) decryption_failed) _
          e4 in
      let (_, p6, e6) = >>=-eq-ok (validate_primitive_compliance n strategis) _ e5 in
      let (kek, p7, e7) = >>=-eq-ok (ok_or unknown_key_id (resolve_raw st env.key_id)) _ e6 in
      let (dek, p8, e8) =
        >>=-eq-ok
          (or_legacy env (unwrap_key x (algorithm_of env) n kek dn ed) (
            unwrap_key x (algorithm_of env) n kek dn ed
              (aad_bytes env.tenant_id env.purpose env.key_id n)))
          _ e7 in
      let (_, p9, e9) = >>=-eq-ok (fail_if (not (eqb (length dek) 32)) decryption_failed) _ e8 in
      let (l1, l2) = both_12 (length nonce) (length dn) (fail_if-eq-ok _ decryption_failed p5) in
      record {
        ciphertext = c;
        nonce = nonce;
        encrypted_dek = ed;
        dek_nonce = dn;
        kek = kek;
        dek = dek;
        encrypted_dek_decoded = ok_or-eq-ok invalid_base64 _ p3;
        dek_nonce_decoded = ok_or-eq-ok invalid_base64 _ p4;
        length_nonce = l1;
        length_dek_nonce = l2;
        compliant = p6;
        known = ok_or-eq-ok unknown_key_id _ p7;
        unwrapped = p8;
        length_dek = ground (arith, fail_if-eq-ok (not (eqb (length dek) 32)) decryption_failed p9);
        opened = e9;
      }
