-- ===== src/Api/V1/Sign.antt =====
-- `sign_v1` and `verify_v1` of src/api/v1.rs.
use secret_management.Prelude.{
  ℕ, suc, eqb, not, String, Bool, false, Bytes, length, if◌then◌else◌, Result, ok, err, ok_or,
  ◌>>=◌, ◌>>◌,
}
use secret_management.Http.{bad_request, internal_server_error}
use secret_management.Std.Text.{contains}
use secret_management.Std.Text.Case.{normalize}
use secret_management.Crates.{Crates, SigningCrates}
use secret_management.Services.KeyService.{KeyService, ed25519_key, rsa_key}
use secret_management.Api.Models.{Failure}
use secret_management.Api.Dto.{SignDto, SignResponse, VerifyDto, VerifyResponse}
use secret_management.Api.V1.{check_policy, check_tenant, b64d}

-- `d.policy.trim().to_ascii_lowercase().contains("rsa")`
unfoldable pub is_rsa : String → Bool
is_rsa policy = contains "rsa" (normalize policy)

-- A handler's answer, the service with its caches as they are then, and the uses of `OsRng`.
abbrev pub Signed : Type 0 → Type 0 → Type 0 → Type 0 → Type 0
Signed C K R A = A × KeyService C K R × ℕ

-- the bytes of the message, where the request is accepted
unfoldable pub sign_message :
    {C D K R : Type 0} → Crates C D → KeyService C K R → SignDto → Result Failure Bytes
sign_message x ks d = do
  check_policy d.policy d.classification
  check_tenant ks d.tenant_id
  b64d x d.content

-- the message and the signature, where the request is accepted
unfoldable pub verify_message :
    {C D : Type 0} → Crates C D → VerifyDto → Result Failure (Bytes × Bytes)
verify_message x d = do
  check_policy d.policy d.classification
  msg ← b64d x d.content
  sig ← b64d x d.signature
  ok (msg, sig)

module _ {C K R : Type 0} (s : SigningCrates K R) where
  abbrev pub rsa_signature : Bytes → Signed C K R R → Signed C K R (Result Failure Bytes)
  rsa_signature msg (key, ks, i) =
      (ok_or (internal_server_error, "Signing failed") (s.rsa_sign key i (s.sha256 msg)), ks, suc i)

  abbrev pub ed25519_signature :
      Bytes → ℕ → K × KeyService C K R → Signed C K R (Result Failure Bytes)
  ed25519_signature msg i (sk, ks) = (ok (s.ed25519_sign sk msg), ks, i)

  -- the signature, by the tenant's key of the kind that the policy names
  unfoldable pub sign_bytes :
      KeyService C K R → String → String → Bytes → ℕ → Signed C K R (Result Failure Bytes)
  sign_bytes ks tenant_id policy msg i =
      if is_rsa policy
      then rsa_signature msg (rsa_key s ks tenant_id i)
      else ed25519_signature msg i (ed25519_key s ks tenant_id)

  abbrev pub rsa_valid : Bytes → Bytes → Signed C K R R → Signed C K R Bool
  rsa_valid msg sig (key, ks, i) = (s.rsa_verify key (s.sha256 msg) sig, ks, i)

  abbrev pub ed25519_valid : Bytes → Bytes → ℕ → K × KeyService C K R → Signed C K R Bool
  ed25519_valid msg sig i (sk, ks) =
      (if not (eqb (length sig) 64) then false else s.ed25519_verify sk msg sig, ks, i)

  unfoldable pub verify_bytes :
      KeyService C K R → String → String → Bytes → Bytes → ℕ → Signed C K R Bool
  verify_bytes ks tenant_id policy msg sig i =
      if is_rsa policy
      then rsa_valid msg sig (rsa_key s ks tenant_id i)
      else ed25519_valid msg sig i (ed25519_key s ks tenant_id)

  abbrev pub verify_answer : Signed C K R Bool → Signed C K R (Result Failure VerifyResponse)
  verify_answer (valid, ks, i) = (
    if not valid then err (bad_request, "Verification failed") else ok (record { valid = valid }),
    ks,
    i,
  )

module _ {C D K R : Type 0} (x : Crates C D) (s : SigningCrates K R) where
  abbrev pub sign_response : String → Bytes → SignResponse
  sign_response policy sig = record {
    signature_b64 = x.b64_encode sig;
    key_id = "primary";
    algorithm = policy;
  }

  abbrev pub sign_answer :
      String → Signed C K R (Result Failure Bytes) → Signed C K R (Result Failure SignResponse)
  sign_answer policy (r, ks, i) = (r >>= (λ sig. ok (sign_response policy sig)), ks, i)

  -- the rest of `sign_v1`, where the message is accepted
  abbrev pub sign_accepted :
      KeyService C K R
      → SignDto
      → Result Failure Bytes
      → ℕ
      → Signed C K R (Result Failure SignResponse)
  sign_accepted ks d (ok msg) i = sign_answer d.policy (sign_bytes s ks d.tenant_id d.policy msg i)
  sign_accepted ks d (err e) i = (err e, ks, i)

  unfoldable pub sign_v1 :
      KeyService C K R → SignDto → ℕ → Signed C K R (Result Failure SignResponse)
  sign_v1 ks d i = sign_accepted ks d (sign_message x ks d) i

  -- the rest of `verify_v1`, where the request is accepted
  abbrev pub verify_accepted :
      KeyService C K R
      → VerifyDto
      → Result Failure (Bytes × Bytes)
      → ℕ
      → Signed C K R (Result Failure VerifyResponse)
  verify_accepted ks d (ok (msg, sig)) i =
      verify_answer s (verify_bytes s ks d.tenant_id d.policy msg sig i)
  verify_accepted ks d (err e) i = (err e, ks, i)

  unfoldable pub verify_v1 :
      KeyService C K R → VerifyDto → ℕ → Signed C K R (Result Failure VerifyResponse)
  verify_v1 ks d i = verify_accepted ks d (verify_message x d) i
