-- ===== src/App/Overlap/Nonces.antt =====
-- How the answers of /encrypt and /v1/crypto/encrypt are sealed, in draws of `OsRng`.
use secret_management.Prelude.{
  ℕ, ◌+◌, Bool, true, false, ◌≡◌, ap, some, Bytes, Result, ok, err, Result-cases, inl, inr, ok_inj,
}
use secret_management.Errors.{CryptoError}
use secret_management.Crates.{Crates}
use secret_management.Kek.{KekStore}
use secret_management.Envelope.{EncryptedEnvelope, encrypt_envelope}
use secret_management.Envelope.Sealed.{IsSealed, encrypt_envelope-IsSealed}
use secret_management.Services.KeyService.{KeyService}
use secret_management.Services.CryptoService.{store_for}
use secret_management.Services.Tenants.{encrypt-store}
use secret_management.Api.Models.{Failure, EncryptRequest, EncryptResponse}
use secret_management.Api.Dto.{EncryptDto, EncryptV1Response}
use secret_management.Api.Handlers.{response_of, encrypt_handler, payload_of}
use secret_management.Api.Handlers.{encrypted as answer_of}
use secret_management.Api.V1.{encrypt_v1, v1_policy, v1_payload, v1_response}
use secret_management.Api.V1.RoundTrip.{encrypt_v1-IsAnswered}
use secret_management.App.Routes.{Body, encrypted, encrypted_v1}
use secret_management.App.Overlap.Draws.{encrypt_envelope-three}

-- The body has an envelope.
abbrev pub is_envelope : Body → Bool
is_envelope (encrypted _) = true
is_envelope (encrypted_v1 _) = true
is_envelope _ = false

module _ {C D : Type 0} (x : Crates C D) where
  -- The answer to a request to /encrypt is the envelope of its payload, sealed over the key store with
  -- the draws from the `i`-th on.
  pub record HandlerSealed (st : KekStore C) (req : EncryptRequest) (i : ℕ) (resp : EncryptResponse)
      : Type 0 where
    pub payload : Bytes
    pub env : EncryptedEnvelope
    pub accepted : payload_of x req ≡ ok payload
    pub sealed : IsSealed x st "default" "default" "aes-256-gcm" payload i env
    pub same : response_of env ≡ resp

  -- The same of a request to /v1/crypto/encrypt, over the store of its tenant.
  pub record V1Sealed {K R : Type 0} (ks : KeyService C K R) (d : EncryptDto) (i : ℕ)
      (resp : EncryptV1Response) : Type 0 where
    pub payload : Bytes
    pub st : KekStore C
    pub env : EncryptedEnvelope
    pub accepted : v1_payload x ks d ≡ ok payload
    pub found : store_for ks d.tenant_id ≡ some st
    pub sealed : IsSealed x st d.tenant_id d.purpose "aes-256-gcm" payload i env
    pub same : v1_response env ≡ resp

  encrypted_of :
      (r : Result CryptoError EncryptedEnvelope × ℕ) (j : ℕ) (resp : EncryptResponse)
      → answer_of r ≡ (ok resp, j)
      → (env : EncryptedEnvelope) × ◌≡◌ {A = Result CryptoError EncryptedEnvelope × ℕ} r (ok env, j)
        × (response_of env ≡ resp)
  encrypted_of (ok env, k) j resp e = (
    env,
    ap (λ (n : ℕ). (ok env, n)) (ap (λ (r : Result Failure EncryptResponse × ℕ). r.1) e),
    ok_inj (ap (λ (r : Result Failure EncryptResponse × ℕ). r.0) e),
  )
  encrypted_of (err c, k) j resp e = cc

  pub encrypt_handler-HandlerSealed :
      (st : KekStore C) (req : EncryptRequest) (i j : ℕ) (resp : EncryptResponse)
      → encrypt_handler x st req i ≡ (ok resp, j)
      → HandlerSealed st req i resp × (j ≡ i + 3)
  unfolding encrypt_handler
  encrypt_handler-HandlerSealed st req i j resp e = elim (Result-cases (payload_of x req)) [
    | inr (c, p) ↦ cc (rw (p, encrypt_handler) at e)
    | inl (m, p) ↦
        let (env, done, same) =
          encrypted_of (encrypt_envelope x st "default" "default" "aes-256-gcm" m i) j resp
            (rw (p, encrypt_handler) at e) in
        (
          record {
            payload = m;
            env = env;
            accepted = p;
            sealed =
                encrypt_envelope-IsSealed x st "default" "default" "aes-256-gcm" m i env j done;
            same = same;
          },
          encrypt_envelope-three x st "default" "default" "aes-256-gcm" m i j env done,
        )
  ]

  pub encrypt_v1-V1Sealed :
      {K R : Type 0} (ks : KeyService C K R) (d : EncryptDto) (i j : ℕ) (resp : EncryptV1Response)
      → encrypt_v1 x ks d i ≡ (ok resp, j)
      → V1Sealed ks d i resp × (j ≡ i + 3)
  encrypt_v1-V1Sealed ks d i j resp e =
      let a = encrypt_v1-IsAnswered x ks d i j resp e in
      let (st, found, done) =
        encrypt-store x ks d.tenant_id d.purpose (v1_policy d) a.payload i j a.env a.sealed in
      (
        record {
          payload = a.payload;
          st = st;
          env = a.env;
          accepted = a.accepted;
          found = found;
          sealed =
              encrypt_envelope-IsSealed x st d.tenant_id d.purpose "aes-256-gcm" a.payload i a.env j
                done;
          same = a.same;
        },
        encrypt_envelope-three x st d.tenant_id d.purpose "aes-256-gcm" a.payload i j a.env done,
      )
