-- ===== src/Services/Tenants.antt =====
-- What the tenants of src/services/crypto_service.rs can rely on, and what they cannot.
use secret_management.Prelude.{
  ok_inj, ℕ, suc, ◌<◌, ◌^◌, String, ◌≡◌, ◌≢◌, refl, sym, ap, ◌∙◌, some, Bytes, IsBytes, length,
  Result, ok, Option-cases, inl, inr, ◌⊎◌,
}
use text.Mathlib.TextPositions.{eq_refl}
use secret_management.Errors.{CryptoError}
use secret_management.Std.Map.{Env}
use secret_management.Std.Text.{trim, is_whitespace, lower_char, to_ascii_lowercase}
use secret_management.Std.Text.Case.{normalize}
use secret_management.Policy.{
  Policy, SecurityClassification, rendah, tinggi, strategis, is_strategis, is_allowed,
  validate_primitive_compliance,
}
use secret_management.Aad.Injective.{Fits}
use secret_management.Crates.{Crates, IsLawful, IsAuthentic}
use secret_management.Kek.{KekStore, resolve_raw}
use secret_management.Kek.FromEnv
use secret_management.Envelope.{EncryptedEnvelope, encrypt_envelope}
use secret_management.Envelope.Decrypt.{decrypt_envelope}
use secret_management.Envelope.RoundTrip
use secret_management.Envelope.Supported.{encrypt_envelope_total}
use secret_management.Envelope.Context.{SameKey, stays_in_context}
use secret_management.Services.KeyService.{KeyService, get_store}
use secret_management.Services.KeyService
use secret_management.Services.CryptoService.{store_for, encrypt, decrypt}
use secret_management.Services.Registry.{from_env-AllConsistent, default-from_env}

-- A store resolves its own current id.
pub resolve_raw-current :
    {C : Type 0} (st : KekStore C) → resolve_raw st st.current_id ≡ some st.current_raw
unfolding resolve_raw
resolve_raw-current st = rw (eq_refl st.current_id) refl

named : normalize "aes-256-gcm" ≡ "aes-256-gcm"
unfolding normalize trim is_whitespace lower_char to_ascii_lowercase
named = refl

-- The check of the policy in `encrypt` always passes.
pub always_compliant :
    (level : SecurityClassification) → validate_primitive_compliance "aes-256-gcm" level ≡ ok tt
unfolding validate_primitive_compliance is_strategis is_allowed normalize trim is_whitespace
    lower_char to_ascii_lowercase
always_compliant rendah = refl
always_compliant tinggi = refl
always_compliant strategis = refl

module _ {C D K R : Type 0} (x : Crates C D) (ks : KeyService C K R) where
  encrypt_lem :
      (t purpose : String) (policy : Policy) (m : Bytes) (i : ℕ) (st : KekStore C)
      → store_for ks t ≡ some st
      → encrypt x ks t purpose policy m i ≡ encrypt_envelope x st t purpose "aes-256-gcm" m i
  unfolding encrypt
  encrypt_lem t purpose policy m i st e = rw (always_compliant policy.classification, encrypt, e)

  decrypt_lem :
      (t : String) (env : EncryptedEnvelope) (st : KekStore C)
      → store_for ks t ≡ some st
      → decrypt x ks t env ≡ decrypt_envelope x st env
  unfolding decrypt
  decrypt_lem t env st e = rw (e, decrypt)

  pub encrypt-store :
      (t purpose : String) (policy : Policy) (m : Bytes) (i j : ℕ) (env : EncryptedEnvelope)
      → encrypt x ks t purpose policy m i ≡ (ok env, j)
      → (st : KekStore C) × (store_for ks t ≡ some st)
        × ◌≡◌ {A = Result CryptoError EncryptedEnvelope × ℕ}
            (encrypt_envelope x st t purpose "aes-256-gcm" m i)
            (ok env, j)
  unfolding encrypt
  encrypt-store t purpose policy m i j env e = elim (Option-cases (store_for ks t)) [
    | inl p ↦ cc (rw (always_compliant policy.classification, encrypt, p) at e)
    | inr (st, p) ↦ (st, p, sym (encrypt_lem t purpose policy m i st p) ∙ e)
  ]

  -- What `encrypt` returns is decrypted over every service whose store for the tenant has the key.
  pub kept_key_opens :
      {K' R' : Type 0}
      → IsLawful x
      → (ks' : KeyService C K' R') (t u purpose : String) (policy : Policy) (m : Bytes) (i j : ℕ)
        (env : EncryptedEnvelope) (st st' : KekStore C)
      → IsBytes m
      → encrypt x ks t purpose policy m i ≡ (ok env, j)
      → store_for ks t ≡ some st
      → store_for ks' u ≡ some st'
      → resolve_raw st' st.current_id ≡ some st.current_raw
      → decrypt x ks' u env ≡ ok m
  unfolding decrypt
  kept_key_opens lawful ks' t u purpose policy m i j env st st' bytes e found found' kept =
      rw (found', decrypt)
        (RoundTrip.decrypt-encrypt x lawful st st' t purpose "aes-256-gcm" m i j env bytes
          (sym (encrypt_lem t purpose policy m i st found) ∙ e) kept)

  -- With crates that keep their laws: what `encrypt` returns for a tenant and a payload of bytes is
  -- decrypted to the payload for every tenant whose calls go to the same store, whichever tenant the
  -- envelope names.
  pub same_store_opens :
      IsLawful x
      → (t u purpose : String) (policy : Policy) (m : Bytes) (i j : ℕ) (env : EncryptedEnvelope)
      → IsBytes m
      → encrypt x ks t purpose policy m i ≡ (ok env, j)
      → store_for ks u ≡ store_for ks t
      → decrypt x ks u env ≡ ok m
  same_store_opens lawful t u purpose policy m i j env bytes e same =
      let (st, found, sealed) = encrypt-store t purpose policy m i j env e in
      kept_key_opens lawful ks t u purpose policy m i j env st st bytes e found (same ∙ found)
        (resolve_raw-current st)

  -- Where an envelope is relabelled with another tenant or purpose but carries the same wrapped key,
  -- no tenant whose calls go to the same store gets anything from it. The fields are below 4 GiB, the
  -- crates keep their laws, and a cipher refuses a ciphertext under other associated data than its own.
  pub relabelled_refused :
      IsLawful x
      → IsAuthentic x
      → (t u purpose : String) (policy : Policy) (m : Bytes) (i j : ℕ)
        (env env' : EncryptedEnvelope)
      → encrypt x ks t purpose policy m i ≡ (ok env, j)
      → store_for ks u ≡ store_for ks t
      → SameKey env' env
      → ((st : KekStore C) → store_for ks t ≡ some st → Fits st.current_id)
      → Fits t × Fits purpose
      → Fits env'.tenant_id × Fits env'.purpose
      → (env'.tenant_id ≢ t) ⊎ (env'.purpose ≢ purpose)
      → (m' : Bytes) → decrypt x ks u env' ≢ ok m'
  relabelled_refused lawful authentic t u purpose policy m i j env env' e same key fit_id fits fits'
        moved m' opened =
      let (st, found, sealed) = encrypt-store t purpose policy m i j env e in
      stays_in_context x lawful authentic st st t purpose "aes-256-gcm" m i j env env' sealed key
        (fits.0, fits.1, fit_id st found) fits' moved (resolve_raw-current st) m'
        (sym (decrypt_lem u env' st (same ∙ found)) ∙ opened)

  pub encrypt_of_store :
      IsLawful x
      → (t purpose : String) (policy : Policy) (m : Bytes) (i : ℕ) (st : KekStore C)
      → store_for ks t ≡ some st
      → length st.current_raw ≡ 32
      → Fits t × Fits purpose × Fits st.current_id
      → length m < 2 ^ 36
      → (env : EncryptedEnvelope) × ◌≡◌ {A = Result CryptoError EncryptedEnvelope × ℕ}
          (encrypt x ks t purpose policy m i)
          (ok env, suc (suc (suc i)))
  encrypt_of_store lawful t purpose policy m i st found full fits short =
      let (env, sealed) =
        encrypt_envelope_total x lawful st t purpose "aes-256-gcm" m i (inl named) full fits
          short in
      (env, encrypt_lem t purpose policy m i st found ∙ sealed)

  store_for-default :
      (t : String) (st : KekStore C)
      → get_store ks "default" ≡ some st
      → (su : KekStore C) × (store_for ks t ≡ some su)
        × ((get_store ks t ≡ some su) ⊎ (get_store ks "default" ≡ some su))
  unfolding store_for
  store_for-default t st e = elim (Option-cases (get_store ks t)) [
    | inl p ↦ (st, rw p e, inr e)
    | inr (su, p) ↦ (su, rw p refl, inl p)
  ]

from_either :
    {P : String → Type 0} {A : Type 0} → ((u : String) → P u → A) → (t u : String) → P t ⊎ P u → A
from_either f t u (inl p) = f t p
from_either f t u (inr p) = f u p

module _ {C D K R : Type 0} (x : Crates C D) (lawful : IsLawful x) where
  registered_facts :
      (ks : KeyService C K R) (env : Env)
      → KeyService.from_env x env ≡ ok ks
      → ((u : String) (su : KekStore C) → get_store ks u ≡ some su → Fits su.current_id)
      → (u : String) (su : KekStore C) → get_store ks u ≡ some su
      → (length su.current_raw ≡ 32) × Fits su.current_id
  registered_facts ks env made ids u su e =
      ((from_env-AllConsistent x lawful env ks made u su e).current_full, ids u su e)

  -- Where the environment gives a default store, a service that is built from it encrypts every
  -- tenant's payload of bytes and decrypts it again, if the tenant, the purpose and the ids of the
  -- registered keys are below 4 GiB and the payload is below 2^36 bytes. The crates keep their laws.
  pub serves_every_tenant :
      (env : Env) (st : KekStore C)
      → FromEnv.from_env x env ≡ ok st
      → (ks : KeyService C K R) → KeyService.from_env x env ≡ ok ks
      → ((u : String) (su : KekStore C) → get_store ks u ≡ some su → Fits su.current_id)
      → (t purpose : String) (policy : Policy) (m : Bytes) (i : ℕ) → Fits t × Fits purpose
      → IsBytes m
      → length m < 2 ^ 36
      → (sealed : EncryptedEnvelope) × (encrypt x ks t purpose policy m i
          ≡ (ok sealed, suc (suc (suc i))))
        × (decrypt x ks t sealed ≡ ok m)
  serves_every_tenant env st built ks made ids t purpose policy m i fits bytes short =
      let (ks', made', there) = default-from_env x {K = K} {R = R} env st built in
      let default : get_store ks "default" ≡ some st =
        sym (ap (λ (k : KeyService C K R). get_store k "default") (ok_inj (sym made' ∙ made)))
        ∙ there in
      let (su, found, registered) = store_for-default x ks t st default in
      let (full, fit) =
        from_either (λ u. registered_facts ks env made ids u su) t "default" registered in
      let (sealed, done) =
        encrypt_of_store x ks lawful t purpose policy m i su found full (fits.0, fits.1, fit)
          short in
      (
        sealed,
        done,
        same_store_opens x ks lawful t t purpose policy m i (suc (suc (suc i))) sealed bytes done
            refl,
      )
