-- ===== src/Api/V1/Statuses.antt =====
-- The statuses with which the handlers of src/api/v1.rs refuse.
use secret_management.Prelude.{
  Fails, Fails-bind, Fails-map_err, Fails-fail_if, Fails-ok_or, ℕ, eqb, ltb, ◌||◌, fail_if, String,
  ◌≡◌, refl, ◌⊎◌, inl, inr, Bool, true, false, Option, Bytes, length, Result, ok, err, ok_or,
  if◌then◌else◌,
}
use secret_management.Http.{bad_request, internal_server_error}
use secret_management.Errors.{CryptoError}
use secret_management.Policy.{validate_primitive_compliance}
use secret_management.Crates.{Crates, SigningCrates}
use secret_management.Envelope.{EncryptedEnvelope}
use secret_management.Services.KeyService.{KeyService, ed25519_key, rsa_key}
use secret_management.Services.CryptoService.{store_for, encrypt, decrypt}
use secret_management.Api.Models.{Failure}
use secret_management.Api.Dto.{EncryptDto, DecryptDto, SignDto, VerifyDto, HashDto}
use secret_management.Api.V1.{
  class, refused, check_policy, check_tenant, b64d, v1_encrypted, v1_policy, v1_payload,
  v1_encrypt_payload, encrypt_v1, decrypt_v1,
}
use secret_management.Api.V1.Sign.{
  is_rsa, sign_message, Signed, rsa_signature, ed25519_signature, sign_bytes, sign_answer,
  sign_accepted, sign_v1, verify_message, verify_answer, verify_bytes, verify_accepted, verify_v1,
}
use secret_management.Api.V1.Hashes.{hasher_of, hash_v1}

-- A refusal of the request.
abbrev pub IsBad : Failure → Type 0
IsBad f = f.0 ≡ bad_request

-- A refusal of the request, or a signature that the RSA crate does not make.
abbrev pub IsBadOrUnsigned : String → Failure → Type 0
IsBadOrUnsigned policy f =
    (f.0 ≡ bad_request) ⊎ ((f.0 ≡ internal_server_error) × (is_rsa policy ≡ true))

module _ (P : Failure → Type 0) (bad : (msg : String) → P (bad_request, msg)) where
  check_policy-Fails : (algo classification : String) → Fails P (check_policy algo classification)
  unfolding check_policy
  check_policy-Fails algo c =
      Fails-map_err P refused (validate_primitive_compliance algo (class c)) (λ e. bad _)

  check_tenant-Fails :
      {C K R : Type 0} (ks : KeyService C K R) (t : String) → Fails P (check_tenant ks t)
  unfolding check_tenant
  check_tenant-Fails ks t =
      Fails-bind P (ok_or (bad_request, "Unknown tenant") (store_for ks t)) _
        (Fails-ok_or P _ (store_for ks t) (λ _. bad _)) (λ _. tt)

  b64d-Fails : {C D : Type 0} (x : Crates C D) (s : String) → Fails P (b64d x s)
  unfolding b64d
  b64d-Fails x s = Fails-ok_or P _ (x.b64_decode s) (λ _. bad _)

  v1_payload-Fails :
      {C D K R : Type 0} (x : Crates C D) (ks : KeyService C K R) (d : EncryptDto)
      → Fails P (v1_payload x ks d)
  unfolding v1_payload
  v1_payload-Fails x ks d =
      Fails-bind P _ _ (check_policy-Fails "aes-256-gcm" d.classification) λ _.
        Fails-bind P _ _ (check_tenant-Fails ks d.tenant_id) λ _.
          Fails-bind P _ _ (b64d-Fails x d.content) λ pt.
            Fails-bind P
              (fail_if {0} (eqb (length pt) 0 || ltb 1000000 (length pt))
                (bad_request, "Invalid payload size"))
              (λ _. ok pt) (Fails-fail_if P _ _ (bad _)) (λ _. tt)

  encrypt_v1-Fails :
      {C D K R : Type 0} (x : Crates C D) (ks : KeyService C K R) (d : EncryptDto) (i : ℕ)
      → Fails P (encrypt_v1 x ks d i).0
  unfolding encrypt_v1
  encrypt_v1-Fails x ks d i = of_payload (v1_payload x ks d) (v1_payload-Fails x ks d)
    where
      of_result : (r : Result CryptoError EncryptedEnvelope × ℕ) → Fails P (v1_encrypted r).0
      of_result (ok env, j) = tt
      of_result (err e, j) = bad _

      of_payload :
          (r : Result Failure Bytes) → Fails P r → Fails P (v1_encrypt_payload x ks d r i).0
      of_payload (ok m) h = of_result (encrypt x ks d.tenant_id d.purpose (v1_policy d) m i)
      of_payload (err e) h = h

  decrypt_v1-Fails :
      {C D K R : Type 0} (x : Crates C D) (from_slice : Bytes → Option EncryptedEnvelope)
      (ks : KeyService C K R) (d : DecryptDto)
      → Fails P (decrypt_v1 x from_slice ks d)
  unfolding decrypt_v1
  decrypt_v1-Fails x from_slice ks d =
      Fails-bind P _ _ (check_policy-Fails "aes-256-gcm" d.classification) λ _.
        Fails-bind P _ _ (check_tenant-Fails ks d.tenant_id) λ _.
          Fails-bind P _ _ (b64d-Fails x d.content) λ raw.
            Fails-bind P _ _ (Fails-ok_or P _ (from_slice raw) (λ _. bad _)) λ env.
              Fails-bind P _ _ (Fails-map_err P refused (decrypt x ks d.tenant_id env) (λ e. bad _))
                λ pt. tt

  hash_v1-Fails :
      {C D K R : Type 0} (x : Crates C D) (s : SigningCrates K R) (d : HashDto)
      → Fails P (hash_v1 x s d)
  unfolding hash_v1
  hash_v1-Fails x s d = Fails-bind P _ _ (check_policy-Fails _ d.classification) λ _.
      Fails-bind P _ _ (b64d-Fails x d.content)
        λ bytes. Fails-bind P _ _ (Fails-ok_or P _ (hasher_of _) (λ _. bad _)) λ h. tt

  verify_v1-Fails :
      {C D K R : Type 0} (x : Crates C D) (s : SigningCrates K R) (ks : KeyService C K R)
      (d : VerifyDto) (i : ℕ)
      → Fails P (verify_v1 x s ks d i).0
  unfolding verify_v1 verify_message
  verify_v1-Fails {C = C} {K = K} {R = R} x s ks d i = of_message (verify_message x d) (
      Fails-bind P _ _ (check_policy-Fails d.policy d.classification) λ _.
        Fails-bind P _ _ (b64d-Fails x d.content)
          λ msg. Fails-bind P _ _ (b64d-Fails x d.signature) λ sig. tt)
    where
      of_answer : (r : Signed C K R Bool) → Fails P (verify_answer s r).0
      of_answer (true, ks', j) = tt
      of_answer (false, ks', j) = bad _

      of_message :
          (r : Result Failure (Bytes × Bytes))
          → Fails P r
          → Fails P (verify_accepted x s ks d r i).0
      of_message (ok (msg, sig)) h = of_answer (verify_bytes s ks d.tenant_id d.policy msg sig i)
      of_message (err e) h = h

module _ {C D K R : Type 0} (x : Crates C D) (s : SigningCrates K R) (ks : KeyService C K R)
    (d : SignDto) where
  sign_message-Fails :
      (P : Failure → Type 0)
      → ((msg : String) → P (bad_request, msg))
      → Fails P (sign_message x ks d)
  unfolding sign_message
  sign_message-Fails P bad =
      Fails-bind P _ _ (check_policy-Fails P bad d.policy d.classification) λ _.
        Fails-bind P _ _ (check_tenant-Fails P bad ks d.tenant_id) λ _. b64d-Fails P bad x d.content

  sign_answer-Fails :
      (P : Failure → Type 0) (r : Signed C K R (Result Failure Bytes))
      → Fails P r.0
      → Fails P (sign_answer x s d.policy r).0
  sign_answer-Fails P (ok sig, ks', i) h = tt
  sign_answer-Fails P (err e, ks', i) h = h

  rsa_signature-Fails :
      (msg : Bytes) (r : Signed C K R R)
      → is_rsa d.policy ≡ true
      → Fails (IsBadOrUnsigned d.policy) (rsa_signature s msg r).0
  rsa_signature-Fails msg (key, ks', i) h =
      Fails-ok_or (IsBadOrUnsigned d.policy) _ (s.rsa_sign key i (s.sha256 msg))
        (λ _. inr (refl, h))

  sign_bytes-Fails :
      (msg : Bytes) (i : ℕ)
      → Fails (IsBadOrUnsigned d.policy) (sign_bytes s ks d.tenant_id d.policy msg i).0
  unfolding sign_bytes
  sign_bytes-Fails msg i = of_kind (is_rsa d.policy) refl
    where
      of_kind :
          (b : Bool)
          → is_rsa d.policy ≡ b
          → Fails
              (IsBadOrUnsigned d.policy)
              (if b
                then rsa_signature s msg (rsa_key s ks d.tenant_id i)
                else ed25519_signature s msg i (ed25519_key s ks d.tenant_id)).0
      of_kind true h = rsa_signature-Fails msg (rsa_key s ks d.tenant_id i) h
      of_kind false h = tt

  sign_v1-Fails : (i : ℕ) → Fails (IsBadOrUnsigned d.policy) (sign_v1 x s ks d i).0
  unfolding sign_v1
  sign_v1-Fails i = of_message (sign_message x ks d) (sign_message-Fails _ (λ msg. inl refl))
    where
      of_message :
          (r : Result Failure Bytes)
          → Fails (IsBadOrUnsigned d.policy) r
          → Fails (IsBadOrUnsigned d.policy) (sign_accepted x s ks d r i).0
      of_message (ok msg) h =
          sign_answer-Fails (IsBadOrUnsigned d.policy) (sign_bytes s ks d.tenant_id d.policy msg i)
            (sign_bytes-Fails msg i)
      of_message (err e) h = h

-- Whatever the crates answer, `encrypt_v1`, `decrypt_v1`, `verify_v1` and `hash_v1` fail with the
-- status 400 only, and `sign_v1` with 400, or with 500 where the policy names RSA.
pub v1_statuses :
    {C D K R : Type 0} (x : Crates C D) (s : SigningCrates K R)
    (from_slice : Bytes → Option EncryptedEnvelope) (ks : KeyService C K R) (i : ℕ)
    → ((d : EncryptDto) → Fails IsBad (encrypt_v1 x ks d i).0)
      × ((d : DecryptDto) → Fails IsBad (decrypt_v1 x from_slice ks d))
      × ((d : SignDto) → Fails (IsBadOrUnsigned d.policy) (sign_v1 x s ks d i).0)
      × ((d : VerifyDto) → Fails IsBad (verify_v1 x s ks d i).0)
      × ((d : HashDto) → Fails IsBad (hash_v1 x s d))
v1_statuses x s from_slice ks i = (
  λ d. encrypt_v1-Fails IsBad (λ _. refl) x ks d i,
  λ d. decrypt_v1-Fails IsBad (λ _. refl) x from_slice ks d,
  λ d. sign_v1-Fails x s ks d i,
  λ d. verify_v1-Fails IsBad (λ _. refl) x s ks d i,
  λ d. hash_v1-Fails IsBad (λ _. refl) x s d,
)
