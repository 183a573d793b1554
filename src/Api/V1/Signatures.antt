-- ===== src/Api/V1/Signatures.antt =====
-- What `sign_v1` of src/api/v1.rs signs, `verify_v1` accepts later.
use secret_management.Prelude.{
  ℕ, String, ◌≡◌, sym, ap, ◌∙◌, inl, inr, true, false, Bool-cases, some, Result-cases, Bytes,
  IsBytes, arith, Result, ok, err, ok_inj, ok_or-eq-ok, subst,
}
use secret_management.Std.Map.{get}
use secret_management.Crates.{Crates, IsLawful, SigningCrates, IsLawfulSigning}
use secret_management.Services.KeyService.{KeyService, ed25519_key, rsa_key}
use secret_management.Services.Growth.{
  IsDerived, ed25519_key-IsDerived, rsa_key-cached, rsa_key-hit, Grows, Grows-refl,
  ed25519_key-Grows, rsa_key-Grows,
}
use secret_management.Api.Models.{Failure}
use secret_management.Api.Dto.{SignDto, SignResponse, VerifyDto}
use secret_management.Api.V1.{b64d}
use secret_management.Api.V1.Sign.{
  is_rsa, sign_message, Signed, rsa_signature, ed25519_signature, sign_bytes, sign_response,
  sign_answer, sign_v1, verify_message, verify_bytes, verify_v1,
}

module _ {C K R : Type 0} (s : SigningCrates K R) where
  rsa_signature_inv :
      (p : Signed C K R R) (msg sig : Bytes) (ks : KeyService C K R) (j : ℕ)
      → rsa_signature s msg p ≡ (ok sig, ks, j)
      → (s.rsa_sign p.0 p.2 (s.sha256 msg) ≡ some sig) × (p.1 ≡ ks)
  rsa_signature_inv (key, ks', i) msg sig ks j e = (
    ok_or-eq-ok _ (s.rsa_sign key i (s.sha256 msg))
        (ap (λ (r : Signed C K R (Result Failure Bytes)). r.0) e),
    ap (λ (r : Signed C K R (Result Failure Bytes)). r.1) e,
  )

  ed25519_signature_inv :
      (p : K × KeyService C K R) (msg sig : Bytes) (ks : KeyService C K R) (i j : ℕ)
      → ed25519_signature s msg i p ≡ (ok sig, ks, j)
      → (s.ed25519_sign p.0 msg ≡ sig) × (p.1 ≡ ks)
  ed25519_signature_inv (key, ks') msg sig ks i j e = (
    ok_inj (ap (λ (r : Signed C K R (Result Failure Bytes)). r.0) e),
    ap (λ (r : Signed C K R (Result Failure Bytes)). r.1) e,
  )

  module _ (lawful : IsLawfulSigning s) (t policy : String) (msg sig : Bytes)
      (ks ks1 ks' : KeyService C K R) (i j k : ℕ) where
    rsa_verified :
        is_rsa policy ≡ true
        → sign_bytes s ks t policy msg i ≡ (ok sig, ks1, j)
        → Grows s ks1 ks'
        → IsBytes sig × ((verify_bytes s ks' t policy msg sig k).0 ≡ true)
    unfolding sign_bytes verify_bytes
    rsa_verified kind e grows =
        let p = rsa_key s ks t i in
        let (signed, same) = rsa_signature_inv p msg sig ks1 j (rw (kind, sign_bytes) at e) in
        let cached =
          grows.rsa_kept t p.0 (
            ap (λ (q : KeyService C K R). get t q.rsa_cache) (sym same)
            ∙ rsa_key-cached s ks t i) in
        (
          lawful.rsa_sign-IsBytes p.0 p.2 (s.sha256 msg) sig signed,
          rw (kind, verify_bytes, rsa_key-hit s ks' t k p.0 cached)
              (lawful.rsa_verify-sign p.0 p.2 (s.sha256 msg) sig signed),
        )

    ed25519_verified :
        is_rsa policy ≡ false
        → IsDerived s ks
        → sign_bytes s ks t policy msg i ≡ (ok sig, ks1, j)
        → Grows s ks1 ks'
        → IsBytes sig × ((verify_bytes s ks' t policy msg sig k).0 ≡ true)
    unfolding sign_bytes verify_bytes
    ed25519_verified kind derived e grows =
        let p = ed25519_key s ks t in
        let (signed, same) = ed25519_signature_inv p msg sig ks1 i j (rw (kind, sign_bytes) at e) in
        let (here, after) = ed25519_key-IsDerived s ks t derived in
        let later =
          ed25519_key-IsDerived s ks' t (grows.derived_kept (subst (IsDerived s) same after)) in
        let by_key : s.ed25519_sign (ed25519_key s ks' t).0 msg ≡ sig =
          ap (λ (q : K). s.ed25519_sign q msg) (later.0 ∙ sym here) ∙ signed in
        (
          subst IsBytes signed (lawful.ed25519_sign-IsBytes p.0 msg),
          rw (kind, verify_bytes)
              (rw (← by_key) (
                ground (
                  arith,
                  lawful.length-ed25519_sign (ed25519_key s ks' t).0 msg,
                  lawful.ed25519_verify-sign (ed25519_key s ks' t).0 msg,
                ))),
        )

    verified :
        IsDerived s ks
        → sign_bytes s ks t policy msg i ≡ (ok sig, ks1, j)
        → Grows s ks1 ks'
        → IsBytes sig × ((verify_bytes s ks' t policy msg sig k).0 ≡ true)
    verified derived e grows = elim (Bool-cases (is_rsa policy)) [
      | inl kind ↦ rsa_verified kind e grows
      | inr kind ↦ ed25519_verified kind derived e grows
    ]

module _ {C K R : Type 0} (s : SigningCrates K R) (ks : KeyService C K R) (t policy : String) where
  sign_bytes-Grows : (msg : Bytes) (i : ℕ) → Grows s ks (sign_bytes s ks t policy msg i).1
  unfolding sign_bytes
  sign_bytes-Grows msg i = elim (Bool-cases (is_rsa policy)) [
    | inl kind ↦ rw (kind, sign_bytes) (rsa_key-Grows s ks t i)
    | inr kind ↦ rw (kind, sign_bytes) (ed25519_key-Grows s ks t)
  ]

  verify_bytes-Grows :
      (msg sig : Bytes) (i : ℕ) → Grows s ks (verify_bytes s ks t policy msg sig i).1
  unfolding verify_bytes
  verify_bytes-Grows msg sig i = elim (Bool-cases (is_rsa policy)) [
    | inl kind ↦ rw (kind, verify_bytes) (rsa_key-Grows s ks t i)
    | inr kind ↦ rw (kind, verify_bytes) (ed25519_key-Grows s ks t)
  ]

-- The request that asks about an answer of `sign_v1`.
abbrev pub verify_of : SignDto → SignResponse → VerifyDto
verify_of d resp = record {
  policy = d.policy;
  purpose = d.purpose;
  tenant_id = d.tenant_id;
  classification = d.classification;
  content = d.content;
  signature = resp.signature_b64;
}

module _ {C D K R : Type 0} (x : Crates C D) (s : SigningCrates K R) where
  sign_answer_inv :
      (policy : String) (r : Signed C K R (Result Failure Bytes)) (resp : SignResponse)
      (ks : KeyService C K R) (j : ℕ)
      → sign_answer x s policy r ≡ (ok resp, ks, j)
      → (sig : Bytes) × (r ≡ (ok sig, ks, j)) × (sign_response x s policy sig ≡ resp)
  sign_answer_inv policy (ok sig, ks', i) resp ks j e = (
    sig,
    ap (λ (q : Signed C K R (Result Failure SignResponse)). (ok sig, q.1, q.2)) e,
    ok_inj (ap (λ (q : Signed C K R (Result Failure SignResponse)). q.0) e),
  )
  sign_answer_inv policy (err c, ks', i) resp ks j e = cc

  sign_v1_inv :
      (ks ks1 : KeyService C K R) (d : SignDto) (i j : ℕ) (resp : SignResponse)
      → sign_v1 x s ks d i ≡ (ok resp, ks1, j)
      → (msg sig : Bytes) × (sign_message x ks d ≡ ok msg)
        × (sign_bytes s ks d.tenant_id d.policy msg i ≡ (ok sig, ks1, j))
        × (sign_response x s d.policy sig ≡ resp)
  unfolding sign_v1
  sign_v1_inv ks ks1 d i j resp e = elim (Result-cases (sign_message x ks d)) [
    | inr (c, p) ↦ cc (rw (p, sign_v1) at e)
    | inl (msg, p) ↦
        let (sig, made, same) =
          sign_answer_inv d.policy (sign_bytes s ks d.tenant_id d.policy msg i) resp ks1 j
            (rw (p, sign_v1) at e) in
        (msg, sig, p, made, same)
  ]

  verify_message_of :
      (ks : KeyService C K R) (d : SignDto) (resp : SignResponse) (msg sig : Bytes)
      → sign_message x ks d ≡ ok msg
      → x.b64_decode resp.signature_b64 ≡ some sig
      → verify_message x (verify_of d resp) ≡ ok (msg, sig)
  unfolding sign_message verify_message b64d
  verify_message_of ks d resp msg sig e decoded = ground arith

  verify_v1_lem :
      (ks : KeyService C K R) (v : VerifyDto) (msg sig : Bytes) (k : ℕ)
      → verify_message x v ≡ ok (msg, sig)
      → (verify_bytes s ks v.tenant_id v.policy msg sig k).0 ≡ true
      → (verify_v1 x s ks v k).0 ≡ ok (record { valid = true })
  unfolding verify_v1
  verify_v1_lem ks v msg sig k e valid = rw (e, verify_v1, valid)

  -- With crates that keep their laws, and cached Ed25519 keys that are those derived from the tenants:
  -- what `sign_v1` signs is accepted by `verify_v1` for the same tenant, policy, classification and
  -- content, in every later state of the service.
  pub verify_v1-sign_v1 :
      IsLawful x
      → IsLawfulSigning s
      → (ks ks1 ks' : KeyService C K R) (d : SignDto) (i j k : ℕ) (resp : SignResponse)
      → IsDerived s ks
      → sign_v1 x s ks d i ≡ (ok resp, ks1, j)
      → Grows s ks1 ks'
      → (verify_v1 x s ks' (verify_of d resp) k).0 ≡ ok (record { valid = true })
  verify_v1-sign_v1 lawful signing ks ks1 ks' d i j k resp derived e grows =
      let (msg, sig, accepted, made, same) = sign_v1_inv ks ks1 d i j resp e in
      let (bytes, valid) =
        verified s signing d.tenant_id d.policy msg sig ks ks1 ks' i j k derived made grows in
      let decoded : x.b64_decode resp.signature_b64 ≡ some sig =
        ap (λ (r : SignResponse). x.b64_decode r.signature_b64) (sym same)
        ∙ lawful.b64_decode-encode sig bytes in
      verify_v1_lem ks' (verify_of d resp) msg sig k
        (verify_message_of ks d resp msg sig accepted decoded) valid

  -- Signing and verifying only add keys to the caches.
  pub sign_v1-Grows :
      (ks : KeyService C K R) (d : SignDto) (i : ℕ) → Grows s ks (sign_v1 x s ks d i).1
  unfolding sign_v1
  sign_v1-Grows ks d i = elim (Result-cases (sign_message x ks d)) [
    | inr (c, p) ↦ rw (p, sign_v1) (Grows-refl s ks)
    | inl (msg, p) ↦ rw (p, sign_v1) (sign_bytes-Grows s ks d.tenant_id d.policy msg i)
  ]

  pub verify_v1-Grows :
      (ks : KeyService C K R) (d : VerifyDto) (i : ℕ) → Grows s ks (verify_v1 x s ks d i).1
  unfolding verify_v1
  verify_v1-Grows ks d i = elim (Result-cases (verify_message x d)) [
    | inr (c, p) ↦ rw (p, verify_v1) (Grows-refl s ks)
    | inl ((msg, sig), p) ↦
        rw (p, verify_v1) (verify_bytes-Grows s ks d.tenant_id d.policy msg sig i)
  ]
