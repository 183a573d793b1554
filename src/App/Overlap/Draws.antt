-- ===== src/App/Overlap/Draws.antt =====
-- The draws of `OsRng` that the handlers of src/app.rs make.
use secret_management.Prelude.{
  ℕ, suc, ok_or, ◌+◌, ◌≤◌, String, ◌≡◌, refl, ap, Bytes, Result, ok, err, Result-cases, inl, inr,
  arith, Bool-cases, Option-cases,
}
use secret_management.Std.Text.Case.{normalize}
use secret_management.Std.Map.{get}
use secret_management.Errors.{CryptoError, unknown_key_id}
use secret_management.Policy.{Policy, strategis, validate_primitive_compliance}
use secret_management.Crates.{Crates, SigningCrates}
use secret_management.Kek.{KekStore}
use secret_management.Envelope.{
  EncryptedEnvelope, resume, aad_bytes, encrypt_data, wrap_key, encrypt_envelope,
}
use secret_management.Envelope.Sealed.{encrypt_envelope-IsSealed}
use secret_management.Services.KeyService.{KeyService, rsa_key}
use secret_management.Services.CryptoService.{store_for, encrypt}
use secret_management.Api.Models.{EncryptRequest}
use secret_management.Api.Dto.{EncryptDto, SignDto, VerifyDto}
use secret_management.Api.Handlers.{payload_of, encrypted, encrypt_handler}
use secret_management.Api.V1.{v1_payload, v1_policy, v1_encrypted, encrypt_v1}
use secret_management.Api.V1.Sign.{
  is_rsa, sign_message, verify_message, sign_bytes, verify_bytes, sign_v1, verify_v1,
}

module _ {C D : Type 0} (x : Crates C D) where
  resume-draws :
      {A B : Type 0} (i j : ℕ) (r : Result CryptoError A) (f : A → ℕ → Result CryptoError B × ℕ)
      → i ≤ j
      → ((a : A) → i ≤ (f a j).1)
      → i ≤ (resume (r, j) f).1
  resume-draws i j (ok a) f h k = k a
  resume-draws i j (err e) f h k = h

  encrypt_envelope-draws :
      (st : KekStore C) (t pu alg : String) (m : Bytes) (i : ℕ)
      → i ≤ (encrypt_envelope x st t pu alg m i).1
  unfolding encrypt_envelope
  encrypt_envelope-draws st t pu alg m i =
      resume-draws i i (validate_primitive_compliance (normalize alg) strategis) _ (omega arith)
        λ _.
          resume-draws i (suc (suc i))
            (encrypt_data x alg (normalize alg) (x.random 32 i) (x.random 12 (suc i)) m) _
            (omega arith)
            λ c.
              resume-draws i (suc (suc (suc i)))
                (wrap_key x (normalize alg) st.current_raw (x.random 12 (suc (suc i)))
                  (x.random 32 i) (aad_bytes t pu st.current_id (normalize alg)))
                _ (omega arith) λ d. omega arith

  pub encrypt_envelope-three :
      (st : KekStore C) (t pu alg : String) (m : Bytes) (i j : ℕ) (env : EncryptedEnvelope)
      → encrypt_envelope x st t pu alg m i ≡ (ok env, j)
      → j ≡ i + 3
  unfolding encrypt_envelope
  encrypt_envelope-three st t pu alg m i j env e =
      let sealed = encrypt_envelope-IsSealed x st t pu alg m i env j e in
      let drawn : suc (suc (suc i)) ≡ j =
        ap (λ (r : Result CryptoError EncryptedEnvelope × ℕ). r.1)
          (rw (sealed.compliant, sealed.data_sealed, sealed.key_wrapped, encrypt_envelope) at e) in
      omega (arith, drawn)

module _ {K R C : Type 0} (s : SigningCrates K R) where
  rsa_key-draws : (ks : KeyService C K R) (t : String) (i : ℕ) → i ≤ (rsa_key s ks t i).2
  unfolding rsa_key
  rsa_key-draws ks t i = elim (Option-cases (get t ks.rsa_cache)) [
    | inl e ↦ rw (rsa_key, e) (omega arith)
    | inr (k, e) ↦ rw (rsa_key, e) (omega arith)
  ]

encrypted_keeps : (r : Result CryptoError EncryptedEnvelope × ℕ) → (encrypted r).1 ≡ r.1
encrypted_keeps (ok a, i) = refl
encrypted_keeps (err e, i) = refl

v1_encrypted_keeps : (r : Result CryptoError EncryptedEnvelope × ℕ) → (v1_encrypted r).1 ≡ r.1
v1_encrypted_keeps (ok a, i) = refl
v1_encrypted_keeps (err e, i) = refl

module _ {C D : Type 0} (x : Crates C D) where
  pub encrypt_handler-draws :
      (st : KekStore C) (req : EncryptRequest) (i : ℕ) → i ≤ (encrypt_handler x st req i).1
  unfolding encrypt_handler
  encrypt_handler-draws st req i = elim (Result-cases (payload_of x req)) [
    | inl (m, e) ↦
        let r = encrypt_envelope x st "default" "default" "aes-256-gcm" m i in
        rw (encrypt_handler, e, encrypted_keeps r)
          (encrypt_envelope-draws x st "default" "default" "aes-256-gcm" m i)
    | inr (f, e) ↦ rw (encrypt_handler, e) (omega arith)
  ]

  module _ {K R : Type 0} (ks : KeyService C K R) where
    encrypt-draws :
        (t pu : String) (policy : Policy) (m : Bytes) (i : ℕ) → i ≤ (encrypt x ks t pu policy m i).1
    unfolding encrypt
    encrypt-draws t pu policy m i =
        resume-draws x i i (validate_primitive_compliance "aes-256-gcm" policy.classification) _
          (omega arith)
          λ _.
            resume-draws x i i (ok_or unknown_key_id (store_for ks t)) _ (omega arith)
              λ st. encrypt_envelope-draws x st t pu "aes-256-gcm" m i

    pub encrypt_v1-draws : (d : EncryptDto) (i : ℕ) → i ≤ (encrypt_v1 x ks d i).1
    unfolding encrypt_v1
    encrypt_v1-draws d i = elim (Result-cases (v1_payload x ks d)) [
      | inl (m, e) ↦
          rw
            (
              encrypt_v1,
              e,
              v1_encrypted_keeps (encrypt x ks d.tenant_id d.purpose (v1_policy d) m i),
            )
            (encrypt-draws d.tenant_id d.purpose (v1_policy d) m i)
      | inr (f, e) ↦ rw (encrypt_v1, e) (omega arith)
    ]

    module _ (s : SigningCrates K R) where
      pub sign_v1-draws : (d : SignDto) (i : ℕ) → i ≤ (sign_v1 x s ks d i).2
      unfolding sign_v1 sign_bytes
      sign_v1-draws d i = elim (Result-cases (sign_message x ks d)) [
        | inl (m, e) ↦ elim (Bool-cases (is_rsa d.policy)) [
          | inl rsa ↦
              rw (sign_v1, e, sign_bytes, rsa) (omega (arith, rsa_key-draws s ks d.tenant_id i))
          | inr ed ↦ rw (sign_v1, e, sign_bytes, ed) (omega arith)
        ]
        | inr (f, e) ↦ rw (sign_v1, e) (omega arith)
      ]

      pub verify_v1-draws : (d : VerifyDto) (i : ℕ) → i ≤ (verify_v1 x s ks d i).2
      unfolding verify_v1 verify_bytes
      verify_v1-draws d i = elim (Result-cases (verify_message x d)) [
        | inl ((m, sig), e) ↦ elim (Bool-cases (is_rsa d.policy)) [
          | inl rsa ↦ rw (verify_v1, e, verify_bytes, rsa) (rsa_key-draws s ks d.tenant_id i)
          | inr ed ↦ rw (verify_v1, e, verify_bytes, ed) (omega arith)
        ]
        | inr (f, e) ↦ rw (verify_v1, e) (omega arith)
      ]
