-- ===== src/Memory/V1.antt =====
-- What the handlers of src/api/v1.rs for envelopes leave in memory, through
-- src/services/crypto_service.rs.
use secret_management.Prelude.{
  ℕ, String, refl, ltb, eqb, ◌||◌, true, false, ◌∷◌, length, Bytes, Option, none, some, Result, ok,
  err, ok_or, fail_if,
}
use secret_management.Http.{bad_request}
use secret_management.Errors.{CryptoError, unknown_key_id}
use secret_management.Policy.{Policy}
use secret_management.Services.Tenants.{always_compliant}
use secret_management.Crates.{Crates}
use secret_management.Kek.{KekStore}
use secret_management.Envelope.{
  EncryptedEnvelope, encrypt_envelope, lift as plain_lift, ◌>>=◌ as ◌>!◌,
}
use secret_management.Envelope.Decrypt.{decrypt_envelope}
use secret_management.Services.KeyService.{KeyService}
use secret_management.Services.CryptoService.{store_for, encrypt, decrypt}
use secret_management.Api.Models.{Failure}
use secret_management.Api.Dto.{EncryptDto, DecryptDto, DecryptV1Response}
use secret_management.Api.V1.{
  refused, check_policy, check_tenant, b64d, v1_policy, v1_response, v1_encrypted, v1_payload,
  v1_encrypt_payload, encrypt_v1, decrypt_v1,
}
use secret_management.Memory.{Cell, Memory, ◌>>=◌, resume, renamed, lift, with_dropped, wiped}
use secret_management.Memory.Cells.{update-new, zeroed-IsZero, Erased}
use secret_management.Memory.Envelope.{encrypt_envelope_in, decrypt_envelope_in}
use secret_management.Memory.Opening.{Opens, decrypt_envelope_in-Opens}
use secret_management.Memory.Handlers.{encrypt_in, decrypt_in, encrypt_v1_in, decrypt_v1_in}
use secret_management.Memory.Erasing.{
  Erases, Erases-lift, owned, dropped_lem, after_payload-Erased, encoded-Erases,
}

-- the answer for the result of the service
answered-Erases :
    (outcome : Result CryptoError EncryptedEnvelope × ℕ × Memory)
    (r : Result CryptoError EncryptedEnvelope × ℕ)
    → Erases r outcome
    → Erases (v1_encrypted r) (
        resume
          (renamed {E = CryptoError} {F = Failure} refused outcome)
          (λ env. lift (ok (v1_response env))))
answered-Erases outcome (ok a, j) (m, q, e) = rw q (m, refl, e)
answered-Erases outcome (err c, j) (m, q, e) = rw q (m, refl, e)

module _ {C D K R : Type 0} (x : Crates C D) (ks : KeyService C K R) where
  -- the end of `CryptoService::encrypt`, for the result of the search for a store
  found-Erases :
      (found : Option (KekStore C)) (t pu : String) (b : Bytes) (i : ℕ) (m : Memory)
      → Erased m
      → Erases
          ((plain_lift (ok_or unknown_key_id found) >! λ store.
              encrypt_envelope x store t pu "aes-256-gcm" b)
            i)
          (with_dropped (length m) (
            (lift (ok_or unknown_key_id found) >>= λ store.
            encrypt_envelope_in x store t pu "aes-256-gcm" (length m))
              i
              (owned b ∷ m)))
  found-Erases none t pu b i m d =
      (wiped (owned b) ∷ m, rw (update-new wiped (owned b) m) refl, ((λ _. zeroed-IsZero b), d))
  found-Erases (some store) t pu b i m d =
      (_, dropped_lem x store t pu b i m, after_payload-Erased x b i m d)

  encrypt_in-Erases :
      (t pu : String) (policy : Policy) (b : Bytes) (i : ℕ) (m : Memory)
      → Erased m
      → Erases
          (encrypt x ks t pu policy b i)
          (encrypt_in x ks t pu policy (length m) i (owned b ∷ m))
  unfolding encrypt encrypt_in
  encrypt_in-Erases t pu policy b i m d =
      rw (always_compliant policy.classification) (found-Erases (store_for ks t) t pu b i m d)

  pub encrypt_v1_in-Erases :
      (dto : EncryptDto) (i : ℕ) (m : Memory)
      → Erased m
      → Erases (encrypt_v1 x ks dto i) (encrypt_v1_in x ks dto i m)
  unfolding encrypt_v1 v1_payload encrypt_v1_in
  encrypt_v1_in-Erases dto i m d =
      let finish = λ (r : Result Failure Bytes). v1_encrypt_payload x ks dto r i in
      Erases-lift finish (check_policy "aes-256-gcm" dto.classification) _ _ i m d (λ e. refl)
        λ _.
          Erases-lift finish (check_tenant ks dto.tenant_id) _ _ i m d (λ e. refl)
            λ _.
              Erases-lift finish (b64d x dto.content) _ _ i m d (λ e. refl)
                λ b.
                  let plain : Cell = record { to_erase = false; content = b } in
                  Erases-lift finish
                    (fail_if {0} (eqb (length b) 0 || ltb 1000000 (length b))
                      (bad_request, "Invalid payload size"))
                    _ _ i (plain ∷ m) ((λ w. cc w), d) (λ e. refl)
                    λ _. rw (update-new (λ c. record c { to_erase = true }) plain m) (
                      answered-Erases _ _
                        (encrypt_in-Erases dto.tenant_id dto.purpose (v1_policy dto) b i m d))

  found-Opens :
      (found : Option (KekStore C)) (env : EncryptedEnvelope) (i : ℕ) (m : Memory)
      → Opens
          (elim found [ none ↦ err unknown_key_id | some store ↦ decrypt_envelope x store env ])
          i
          m
          ((lift (ok_or unknown_key_id found) >>= λ store. decrypt_envelope_in x store env) i m)
  found-Opens none env i m = (m, refl, λ d. d)
  found-Opens (some store) env i m = decrypt_envelope_in-Opens x store env i m

  decrypt_in-Opens :
      (t : String) (env : EncryptedEnvelope) (i : ℕ) (m : Memory)
      → Opens (decrypt x ks t env) i m (decrypt_in x ks t env i m)
  unfolding decrypt decrypt_in
  decrypt_in-Opens t env i m = found-Opens (store_for ks t) env i m

  pub decrypt_v1_in-Erases :
      (from_slice : Bytes → Option EncryptedEnvelope) (dto : DecryptDto) (i : ℕ) (m : Memory)
      → Erased m
      → Erases (decrypt_v1 x from_slice ks dto, i) (decrypt_v1_in x ks from_slice dto i m)
  unfolding decrypt_v1 decrypt_v1_in
  decrypt_v1_in-Erases from_slice dto i m d =
      let finish : Result Failure DecryptV1Response → Result Failure DecryptV1Response × ℕ =
        λ r. (r, i) in
      let to_answer : String → DecryptV1Response = λ text. record { payload_b64 = text } in
      Erases-lift finish (check_policy "aes-256-gcm" dto.classification) _ _ i m d (λ e. refl)
        λ _.
          Erases-lift finish (check_tenant ks dto.tenant_id) _ _ i m d (λ e. refl)
            λ _.
              Erases-lift finish (b64d x dto.content) _ _ i m d (λ e. refl)
                λ raw.
                  Erases-lift finish (ok_or (bad_request, "Invalid envelope") (from_slice raw)) _ _
                    i m d (λ e. refl)
                    λ env.
                      encoded-Erases x refused to_answer (decrypt x ks dto.tenant_id env) i m _
                        (decrypt_in-Opens dto.tenant_id env i m) d
