-- ===== src/Api/RoundTrip.antt =====
-- What /encrypt of src/api/handlers.rs answers is answered by /decrypt with the payload.
use secret_management.Prelude.{
  ℕ, suc, ◌≡◌, refl, sym, ap, ◌∙◌, inl, Bytes, length, arith, Result, ok, err, some, ok_inj, inr,
  Result-cases,
}
use secret_management.Errors.{CryptoError}
use secret_management.Std.Text.{trim, is_whitespace, lower_char, to_ascii_lowercase}
use secret_management.Std.Text.Case.{normalize}
use secret_management.Aad.Injective.{Fits}
use secret_management.Crates.{Crates, IsLawful, IsSized}
use secret_management.Kek.{KekStore, resolve_raw}
use secret_management.Envelope.{EncryptedEnvelope, encrypt_envelope}
use secret_management.Envelope.Decrypt.{decrypt_envelope}
use secret_management.Envelope.Sealed.{IsSealed, encrypt_envelope-IsSealed}
use secret_management.Envelope.Sizes.{IsSealed-HasSizes}
use secret_management.Envelope.RoundTrip.{decrypt-encrypt}
use secret_management.Envelope.Supported.{encrypt_envelope_total}
use secret_management.Api.Models.{
  EncryptRequest, EncryptResponse, DecryptRequest, Failure, validate_decrypt,
}
use secret_management.Api.Handlers.{
  response_of, payload_of, encrypted, encrypt_handler, envelope_of, decrypt_handler,
}
use secret_management.Api.Limits.{Accepts, payload_of_iff, validate_decrypt_iff}

-- The request to /decrypt that sends the answer of /encrypt back.
abbrev pub request_of : EncryptResponse → DecryptRequest
request_of resp = record {
  ciphertext_b64 = resp.ciphertext_b64;
  nonce_b64 = resp.nonce_b64;
  encrypted_dek_b64 = resp.encrypted_dek_b64;
  dek_nonce_b64 = resp.dek_nonce_b64;
  key_id = resp.key_id;
}

named : normalize "aes-256-gcm" ≡ "aes-256-gcm"
unfolding normalize trim is_whitespace lower_char to_ascii_lowercase
named = refl

-- The handler of /decrypt makes the envelope of /encrypt again.
envelope_of-request_of :
    {C D : Type 0} (x : Crates C D) (st : KekStore C) (m : Bytes) (i : ℕ) (env : EncryptedEnvelope)
    → IsSealed x st "default" "default" "aes-256-gcm" m i env
    → envelope_of (request_of (response_of env)) ≡ env
unfolding normalize trim is_whitespace lower_char to_ascii_lowercase
envelope_of-request_of x st m i env s =
    ap (λ (v : EncryptedEnvelope). envelope_of (request_of (response_of v))) s.same ∙ sym s.same

module _ {C D : Type 0} (x : Crates C D) (lawful : IsLawful x) where
  -- With crates that keep their laws, a current key of 32 bytes and its id below 4 GiB, every request
  -- to /encrypt whose payload is accepted is answered with an envelope.
  pub encrypt_handler_total :
      (st : KekStore C) (req : EncryptRequest) (m : Bytes) (i : ℕ)
      → length st.current_raw ≡ 32
      → Fits st.current_id
      → Accepts x req m
      → (resp : EncryptResponse) × (encrypt_handler x st req i ≡ (ok resp, suc (suc (suc i))))
  unfolding encrypt_handler
  encrypt_handler_total st req m i full fits accepted =
      let (env, sealed) =
        encrypt_envelope_total x lawful st "default" "default" "aes-256-gcm" m i (inl named) full
          (omega arith, omega arith, fits) (omega arith) in
      (response_of env, rw ((payload_of_iff x req m).1 accepted, encrypt_handler, sealed) refl)

  encrypt_handler-envelope :
      (st : KekStore C) (req : EncryptRequest) (m : Bytes) (i j : ℕ) (resp : EncryptResponse)
      → Accepts x req m
      → encrypt_handler x st req i ≡ (ok resp, j)
      → (env : EncryptedEnvelope) × ◌≡◌ {A = Result CryptoError EncryptedEnvelope × ℕ}
          (encrypt_envelope x st "default" "default" "aes-256-gcm" m i)
          (ok env, j)
        × (response_of env ≡ resp)
  unfolding encrypt_handler
  encrypt_handler-envelope st req m i j resp accepted e =
      by_result (encrypt_envelope x st "default" "default" "aes-256-gcm" m i) refl
        (rw ((payload_of_iff x req m).1 accepted, encrypt_handler) at e)
    where
      by_result :
          (r : Result CryptoError EncryptedEnvelope × ℕ)
          → encrypt_envelope x st "default" "default" "aes-256-gcm" m i ≡ r
          → encrypted r ≡ (ok resp, j)
          → (env : EncryptedEnvelope) × ◌≡◌ {A = Result CryptoError EncryptedEnvelope × ℕ}
              (encrypt_envelope x st "default" "default" "aes-256-gcm" m i)
              (ok env, j)
            × (response_of env ≡ resp)
      by_result (ok env, k) p q = (
        env,
        p ∙ ap (λ (n : ℕ). (ok env, n)) (ap (λ (r : Result Failure EncryptResponse × ℕ). r.1) q),
        ok_inj (ap (λ (r : Result Failure EncryptResponse × ℕ). r.0) q),
      )
      by_result (err c, k) p q = cc

  decrypt_handler_lem :
      (st : KekStore C) (req : DecryptRequest) (m : Bytes)
      → validate_decrypt req ≡ ok tt
      → decrypt_envelope x st (envelope_of req) ≡ ok m
      → decrypt_handler x st req ≡ ok (record { payload_b64 = x.b64_encode m })
  unfolding decrypt_handler
  decrypt_handler_lem st req m valid opened = rw (valid, decrypt_handler, opened)

  -- With crates that keep their laws: what /encrypt answers to a request with the payload `m` is
  -- answered by /decrypt with the Base64 of `m`, over every store that resolves the id of the first
  -- store's current key to that key, provided that the fields of the answer pass the size limits of
  -- /decrypt.
  pub decrypt_handler-encrypt_handler :
      (st st' : KekStore C) (req : EncryptRequest) (m : Bytes) (i j : ℕ) (resp : EncryptResponse)
      → Accepts x req m
      → encrypt_handler x st req i ≡ (ok resp, j)
      → validate_decrypt (request_of resp) ≡ ok tt
      → resolve_raw st' st.current_id ≡ some st.current_raw
      → decrypt_handler x st' (request_of resp) ≡ ok (record { payload_b64 = x.b64_encode m })
  decrypt_handler-encrypt_handler st st' req m i j resp accepted e valid known =
      let (env, sealed, answered) = encrypt_handler-envelope st req m i j resp accepted e in
      let parts =
        encrypt_envelope-IsSealed x st "default" "default" "aes-256-gcm" m i env j sealed in
      let same : envelope_of (request_of resp) ≡ env =
        ap (λ (r : EncryptResponse). envelope_of (request_of r)) (sym answered)
        ∙ envelope_of-request_of x st m i env parts in
      decrypt_handler_lem st' (request_of resp) m valid (
        ap (decrypt_envelope x st') same
        ∙ decrypt-encrypt x lawful st st' "default" "default" "aes-256-gcm" m i j env
            (lawful.b64_decode-IsBytes req.payload_b64 m accepted.1) sealed known)

  answer_valid :
      IsSized x
      → (st : KekStore C) (req : EncryptRequest) (m : Bytes) (i j : ℕ) (resp : EncryptResponse)
      → Accepts x req m
      → encrypt_handler x st req i ≡ (ok resp, j)
      → validate_decrypt (request_of resp) ≡ ok tt
  answer_valid sized st req m i j resp accepted e =
      let (env, sealed, answered) = encrypt_handler-envelope st req m i j resp accepted e in
      let sizes =
        IsSealed-HasSizes x sized lawful st "default" "default" "aes-256-gcm" m i env
          (lawful.b64_decode-IsBytes req.payload_b64 m accepted.1)
          (encrypt_envelope-IsSealed x st "default" "default" "aes-256-gcm" m i env j sealed) in
      ap (λ (r : EncryptResponse). validate_decrypt (request_of r)) (sym answered)
      ∙ (validate_decrypt_iff (request_of (response_of env))).1 (
        (omega (arith, sizes.ciphertext), omega (arith, sizes.ciphertext)),
        (omega (arith, sizes.nonce), omega (arith, sizes.nonce)),
        (omega (arith, sizes.encrypted_dek), omega (arith, sizes.encrypted_dek)),
        (omega (arith, sizes.dek_nonce), omega (arith, sizes.dek_nonce)),
      )

  -- With crates that keep their laws and give the lengths that they document: every answer of
  -- /encrypt passes the size limits of /decrypt, and /decrypt answers it with the Base64 of the
  -- payload, over every store that resolves the id of the first store's current key to that key.
  pub every_answer_opens :
      IsSized x
      → (st st' : KekStore C) (req : EncryptRequest) (i j : ℕ) (resp : EncryptResponse)
      → encrypt_handler x st req i ≡ (ok resp, j)
      → resolve_raw st' st.current_id ≡ some st.current_raw
      → (m : Bytes) × Accepts x req m
        × (decrypt_handler x st' (request_of resp) ≡ ok (record { payload_b64 = x.b64_encode m }))
  unfolding encrypt_handler
  every_answer_opens sized st st' req i j resp e known = elim (Result-cases (payload_of x req)) [
    | inr (f, p) ↦ cc (rw (p, encrypt_handler) at e)
    | inl (m, p) ↦
        let accepted = (payload_of_iff x req m).0 p in
        (
          m,
          accepted,
          decrypt_handler-encrypt_handler st st' req m i j resp accepted e
              (answer_valid sized st req m i j resp accepted e) known,
        )
  ]
