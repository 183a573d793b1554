-- ===== src/Api/V1/RoundTrip.antt =====
-- Which requests to `encrypt_v1` of src/api/v1.rs are served, and how `decrypt_v1` gives them back.
use secret_management.Prelude.{
  ℕ, suc, ◌<◌, ◌≤◌, String, ◌≡◌, refl, sym, ap, ◌∙◌, ◌↔◌, inl, inr, Option, some, Option-cases,
  Result-cases, Bytes, length, arith, Result, ok, err, ok_inj, some_inj,
}
use secret_management.Errors.{CryptoError}
use secret_management.Aad.Injective.{Fits}
use secret_management.Crates.{Crates, IsLawful}
use secret_management.Kek.{KekStore, resolve_raw}
use secret_management.Envelope.{EncryptedEnvelope}
use secret_management.Services.KeyService.{KeyService}
use secret_management.Services.CryptoService.{store_for, encrypt, decrypt}
use secret_management.Services.Tenants.{
  always_compliant, encrypt_of_store, kept_key_opens, resolve_raw-current,
}
use secret_management.Api.Models.{Failure}
use secret_management.Api.Dto.{EncryptDto, DecryptDto, EncryptV1Response}
use secret_management.Api.V1.{
  class, check_policy, check_tenant, b64d, v1_response, v1_encrypted, v1_policy, v1_payload,
  encrypt_v1, decrypt_v1,
}

check_policy_aes : (classification : String) → check_policy "aes-256-gcm" classification ≡ ok tt
unfolding check_policy
check_policy_aes c = rw (always_compliant (class c))

module _ {C D K R : Type 0} (x : Crates C D) (ks : KeyService C K R) where
  check_tenant-eq-ok :
      (t : String) (st : KekStore C) → store_for ks t ≡ some st → check_tenant ks t ≡ ok tt
  unfolding check_tenant
  check_tenant-eq-ok t st e = rw e

  -- The bytes that a request gives, and the sizes that are checked.
  abbrev pub Carries : EncryptDto → Bytes → Type 0
  Carries d m = (x.b64_decode d.content ≡ some m) × (0 < length m) × (length m ≤ 1000000)

  pub v1_payload_iff :
      (d : EncryptDto) (m : Bytes) (st : KekStore C)
      → store_for ks d.tenant_id ≡ some st
      → (v1_payload x ks d ≡ ok m) ↔ Carries d m
  unfolding v1_payload b64d
  v1_payload_iff d m st e =
      ground (arith, check_policy_aes d.classification, check_tenant-eq-ok d.tenant_id st e)

  -- What an answer of `encrypt_v1` comes from.
  pub record IsAnswered (d : EncryptDto) (i j : ℕ) (resp : EncryptV1Response) : Type 0 where
    pub payload : Bytes
    pub env : EncryptedEnvelope
    pub accepted : v1_payload x ks d ≡ ok payload
    pub sealed :
        ◌≡◌ {A = Result CryptoError EncryptedEnvelope × ℕ}
          (encrypt x ks d.tenant_id d.purpose (v1_policy d) payload i)
          (ok env, j)
    pub same : v1_response env ≡ resp

  encrypted_of :
      (r : Result CryptoError EncryptedEnvelope × ℕ) (j : ℕ) (resp : EncryptV1Response)
      → v1_encrypted r ≡ (ok resp, j)
      → (env : EncryptedEnvelope) × ◌≡◌ {A = Result CryptoError EncryptedEnvelope × ℕ} r (ok env, j)
        × (v1_response env ≡ resp)
  encrypted_of (ok env, k) j resp e = (
    env,
    ap (λ (n : ℕ). (ok env, n)) (ap (λ (r : Result Failure EncryptV1Response × ℕ). r.1) e),
    ok_inj (ap (λ (r : Result Failure EncryptV1Response × ℕ). r.0) e),
  )
  encrypted_of (err c, k) j resp e = cc

  pub encrypt_v1-IsAnswered :
      (d : EncryptDto) (i j : ℕ) (resp : EncryptV1Response)
      → encrypt_v1 x ks d i ≡ (ok resp, j)
      → IsAnswered d i j resp
  unfolding encrypt_v1
  encrypt_v1-IsAnswered d i j resp e = elim (Result-cases (v1_payload x ks d)) [
    | inr (c, p) ↦ cc (rw (p, encrypt_v1) at e)
    | inl (m, p) ↦
        let (env, sealed, same) =
          encrypted_of (encrypt x ks d.tenant_id d.purpose (v1_policy d) m i) j resp
            (rw (p, encrypt_v1) at e) in
        record { payload = m; env = env; accepted = p; sealed = sealed; same = same }
  ]

  -- With crates that keep their laws, a store for the tenant whose current key has 32 bytes, and a
  -- tenant, a purpose and a key id below 4 GiB: a request is answered with an envelope exactly if its
  -- content is the Base64 of at least one and at most a million bytes. Three draws are made.
  pub encrypt_v1_iff :
      IsLawful x
      → (d : EncryptDto) (i : ℕ) (st : KekStore C) → store_for ks d.tenant_id ≡ some st
      → length st.current_raw ≡ 32
      → Fits d.tenant_id × Fits d.purpose × Fits st.current_id
      → ((resp : EncryptV1Response) × (encrypt_v1 x ks d i ≡ (ok resp, suc (suc (suc i)))))
        ↔ ((m : Bytes) × Carries d m)
  unfolding encrypt_v1
  encrypt_v1_iff lawful d i st found full fits = (
    λ p.
        let a = encrypt_v1-IsAnswered d i (suc (suc (suc i))) p.0 p.1 in
        (a.payload, (v1_payload_iff d a.payload st found).0 a.accepted),
    λ p.
        let (env, sealed) =
          encrypt_of_store x ks lawful d.tenant_id d.purpose (v1_policy d) p.0 i st found full fits
            (omega (arith, p.1.2)) in
        (v1_response env, rw ((v1_payload_iff d p.0 st found).1 p.1, encrypt_v1, sealed) refl),
  )

-- The envelope that a client sends back.
abbrev pub envelope_of_v1 : EncryptV1Response → EncryptedEnvelope
envelope_of_v1 resp = record {
  ciphertext_b64 = resp.ciphertext_b64;
  nonce_b64 = resp.nonce_b64;
  encrypted_dek_b64 = resp.encrypted_dek_b64;
  dek_nonce_b64 = resp.dek_nonce_b64;
  key_id = resp.key_id;
  tenant_id = resp.tenant_id;
  purpose = resp.purpose;
  algorithm = resp.algorithm;
}

module _ {C D K R : Type 0} (x : Crates C D) (from_slice : Bytes → Option EncryptedEnvelope) where
  decrypt_v1_lem :
      (ks : KeyService C K R) (dd : DecryptDto) (raw m : Bytes) (env : EncryptedEnvelope)
      (st : KekStore C)
      → store_for ks dd.tenant_id ≡ some st
      → x.b64_decode dd.content ≡ some raw
      → from_slice raw ≡ some env
      → decrypt x ks dd.tenant_id env ≡ ok m
      → decrypt_v1 x from_slice ks dd ≡ ok (record { payload_b64 = x.b64_encode m })
  unfolding decrypt_v1 b64d
  decrypt_v1_lem ks dd raw m env st found decoded parsed opened = rw (
    check_policy_aes dd.classification,
    decrypt_v1,
    check_tenant-eq-ok x ks dd.tenant_id st found,
    decoded,
    parsed,
    opened,
  )

  payload_store :
      (ks : KeyService C K R) (d : EncryptDto) (m : Bytes)
      → v1_payload x ks d ≡ ok m
      → (st : KekStore C) × (store_for ks d.tenant_id ≡ some st)
  unfolding v1_payload check_tenant
  payload_store ks d m e = elim (Option-cases (store_for ks d.tenant_id)) [
    | inl none_found ↦
        cc (rw (check_policy_aes d.classification, v1_payload, none_found, check_tenant) at e)
    | inr found ↦ found
  ]

  -- What `encrypt_v1` answers is opened over every service whose store for the tenant has the key.
  pub decrypt_v1_kept :
      IsLawful x
      → (ks ks' : KeyService C K R) (d : EncryptDto) (dd : DecryptDto) (i j : ℕ)
        (resp : EncryptV1Response) (m raw : Bytes) (st st' : KekStore C)
      → encrypt_v1 x ks d i ≡ (ok resp, j)
      → x.b64_decode d.content ≡ some m
      → store_for ks d.tenant_id ≡ some st
      → store_for ks' dd.tenant_id ≡ some st'
      → resolve_raw st' st.current_id ≡ some st.current_raw
      → x.b64_decode dd.content ≡ some raw
      → from_slice raw ≡ some (envelope_of_v1 resp)
      → decrypt_v1 x from_slice ks' dd ≡ ok (record { payload_b64 = x.b64_encode m })
  decrypt_v1_kept lawful ks ks' d dd i j resp m raw st st' e content found found' kept decoded
        parsed =
      let a = encrypt_v1-IsAnswered x ks d i j resp e in
      let carried = (v1_payload_iff x ks d a.payload st found).0 a.accepted in
      let payload : a.payload ≡ m = some_inj (sym carried.0 ∙ content) in
      let back : envelope_of_v1 resp ≡ a.env = ap envelope_of_v1 (sym a.same) in
      decrypt_v1_lem ks' dd raw m (envelope_of_v1 resp) st' found' decoded parsed (
        ap (decrypt x ks' dd.tenant_id) back
        ∙ kept_key_opens x ks lawful ks' d.tenant_id dd.tenant_id d.purpose (v1_policy d) a.payload
            i j a.env st st' (lawful.b64_decode-IsBytes d.content a.payload carried.0) a.sealed
            found found' kept
        ∙ ap ok payload)

  -- With crates that keep their laws: what `encrypt_v1` answers is opened by `decrypt_v1`, over every
  -- service and for every tenant with the same store, if the content sent is the Base64 of a text that
  -- the JSON parser reads as the answer. It gives the Base64 of the payload.
  pub decrypt_v1-encrypt_v1 :
      IsLawful x
      → (ks ks' : KeyService C K R) (d : EncryptDto) (dd : DecryptDto) (i j : ℕ)
        (resp : EncryptV1Response) (m raw : Bytes)
      → encrypt_v1 x ks d i ≡ (ok resp, j)
      → x.b64_decode d.content ≡ some m
      → store_for ks' dd.tenant_id ≡ store_for ks d.tenant_id
      → x.b64_decode dd.content ≡ some raw
      → from_slice raw ≡ some (envelope_of_v1 resp)
      → decrypt_v1 x from_slice ks' dd ≡ ok (record { payload_b64 = x.b64_encode m })
  decrypt_v1-encrypt_v1 lawful ks ks' d dd i j resp m raw e content same decoded parsed =
      let a = encrypt_v1-IsAnswered x ks d i j resp e in
      let (st, found) = payload_store ks d a.payload a.accepted in
      decrypt_v1_kept lawful ks ks' d dd i j resp m raw st st e content found (same ∙ found)
        (resolve_raw-current st) decoded parsed
