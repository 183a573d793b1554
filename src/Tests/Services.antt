-- ===== src/Tests/Services.antt =====
-- Runs of src/services: a default store and one of a tenant.
use secret_management.Prelude.{
  ℕ, String, ◌≡◌, ◌≢◌, refl, subst, inl, inr, [], ◌∷◌, Bytes, Option, some, Result, ok, arith,
  some_inj, ne_of_==, Bool-cases, ◌==◌,
}
use secret_management.Errors.{CryptoError}
use secret_management.Std.Map.{Env, get, insert}
use secret_management.Std.Text.{
  starts_with, strip_prefix, strip_suffix, to_ascii_lowercase, lower_char,
}
use secret_management.Policy.{Policy, tinggi}
use secret_management.Aad.Injective.{Fits}
use secret_management.Kek.{KekStore}
use secret_management.Kek.FromEnv.{
  pair_from_hex, from_hex, old_former, try_former, add_former, is_former_key, former_id, scan_var,
  scan_vars,
}
use secret_management.Kek.FromEnv
use secret_management.Envelope.{EncryptedEnvelope}
use secret_management.Services.KeyService.{
  KeyService, tenant_of, default_store, try_tenant, add_tenant, add_tenants, service_of, get_store,
  ed25519_key, rsa_key, derived_key,
}
use secret_management.Services.KeyService
use secret_management.Services.CryptoService.{store_for, encrypt, decrypt}
use secret_management.Services.Tenants.{serves_every_tenant, same_store_opens, relabelled_refused}
use secret_management.Tests.Toy.{toy, toy-IsLawful, toy-IsAuthentic, hex_a, hex_b, key_a, key_b}

abbrev environment : Env
environment = ("APP_KEK", hex_a) ∷ ("APP_TENANT_BANK_KEK", hex_b) ∷ []

abbrev store_of_key : Bytes → KekStore Bytes
store_of_key key = record {
  current_id = "primary";
  current = key;
  current_raw = key;
  previous = [];
  previous_raw = [];
}

abbrev services : KeyService Bytes Bytes ℕ
services = record {
  stores = ("default", store_of_key key_a) ∷ ("bank", store_of_key key_b) ∷ [];
  ed25519_cache = [];
  rsa_cache = [];
}

abbrev policy : Policy
policy = record { classification = tinggi; purpose = "pay"; tenant_id = "shop" }

default_read : FromEnv.from_env toy environment ≡ ok (store_of_key key_a)
unfolding FromEnv.from_env get pair_from_hex old_former scan_vars scan_var is_former_key starts_with
    strip_prefix
default_read = refl

services_read : KeyService.from_env toy environment ≡ ok services
unfolding KeyService.from_env default_store add_tenants add_tenant tenant_of strip_prefix
    strip_suffix try_tenant from_hex pair_from_hex FromEnv.from_env get insert old_former scan_vars
    scan_var is_former_key starts_with to_ascii_lowercase lower_char service_of
services_read = refl

bank_found : get_store services "bank" ≡ some (store_of_key key_b)
unfolding get_store get
bank_found = refl

same_id :
    (a b : KekStore Bytes)
    → a.current_id ≡ "primary"
    → ◌≡◌ {A = Option (KekStore Bytes)} (some a) (some b)
    → Fits b.current_id
same_id a b p e =
    subst (λ (s : KekStore Bytes). Fits s.current_id) (some_inj e) (rw p (omega arith))

ids_fit : (u : String) (su : KekStore Bytes) → get_store services u ≡ some su → Fits su.current_id
unfolding get_store get
ids_fit u su e = elim (Bool-cases ("default" == u)) [
  | inl p ↦ same_id (store_of_key key_a) su refl (rw (p, get_store, get) at e)
  | inr p ↦ elim (Bool-cases ("bank" == u)) [
    | inl q ↦ same_id (store_of_key key_b) su refl (rw (p, get_store, get, q) at e)
    | inr q ↦ cc (rw (p, get_store, get, q) at e)
  ]
]

abbrev payload : Bytes
payload = 9 ∷ 0 ∷ 255 ∷ []

-- An envelope of "shop".
served :
    (sealed : EncryptedEnvelope) × ◌≡◌ {A = Result CryptoError EncryptedEnvelope × ℕ}
      (encrypt toy services "shop" "pay" policy payload 0)
      (ok sealed, 3)
    × (decrypt toy services "shop" sealed ≡ ok payload)
served =
    serves_every_tenant toy toy-IsLawful environment (store_of_key key_a) default_read services
      services_read ids_fit "shop" "pay" policy payload 0 (omega arith, omega arith) (ground arith)
      (omega arith)

serves_every_tenant_example :
    (sealed : EncryptedEnvelope) × ◌≡◌ {A = Result CryptoError EncryptedEnvelope × ℕ}
      (encrypt toy services "shop" "pay" policy payload 0)
      (ok sealed, 3)
    × (decrypt toy services "shop" sealed ≡ ok payload)
serves_every_tenant_example =
    serves_every_tenant toy toy-IsLawful environment (store_of_key key_a) default_read services
      services_read ids_fit "shop" "pay" policy payload 0 (omega arith, omega arith) (ground arith)
      (omega arith)

-- Neither "shop" nor "inn" has a store of its own.
shared : store_for services "inn" ≡ store_for services "shop"
unfolding store_for get_store get
shared = refl

same_store_opens_example : decrypt toy services "inn" served.0 ≡ ok payload
same_store_opens_example =
    same_store_opens toy services toy-IsLawful "shop" "inn" "pay" policy payload 0 3 served.0
      (ground arith) served.1 shared

shop-Fits : (st : KekStore Bytes) → store_for services "shop" ≡ some st → Fits st.current_id
unfolding store_for get_store get
shop-Fits st e = same_id (store_of_key key_a) st refl e

relabelled_refused_example :
    decrypt toy services "inn" (record served.0 { tenant_id = "inn"; purpose = "pay" }) ≢ ok payload
relabelled_refused_example =
    relabelled_refused toy services toy-IsLawful toy-IsAuthentic "shop" "inn" "pay" policy payload 0
      3 served.0 (record served.0 { tenant_id = "inn"; purpose = "pay" }) served.1 shared
      (record { encrypted_dek = refl; dek_nonce = refl; key_id = refl; algorithm = refl }) shop-Fits
      (omega arith, omega arith) (omega arith, omega arith) (inl (ne_of_== "inn" "shop" refl))
      payload
