-- ===== src/Services/KeyService.antt =====
-- src/services/key_service.rs: the stores of the tenants, and the caches of their signing keys.
use Prim.Native.String.{◌++◌ as ◌<>◌}
use secret_management.Prelude.{
  ℕ, suc, String, Option, none, some, List, [], ◌∷◌, if◌then◌else◌, Result, ok, err, unwrap_or,
  and_then, or_else,
}
use secret_management.Std.Map.{HashMap, Env, var, get, insert, contains_key}
use secret_management.Std.Text.{strip_prefix, strip_suffix}
use secret_management.Std.Utf8.{as_bytes}
use secret_management.Crates.{Crates, SigningCrates}
use secret_management.Kek.{KekStore}
use secret_management.Kek.FromEnv.{from_hex}
use secret_management.Kek.FromEnv

-- The ciphers are of type `C`, the Ed25519 keys of type `K`, the RSA keys of type `R`.
pub record KeyService (C K R : Type 0) : Type 0 where
  pub stores : HashMap (KekStore C)
  pub ed25519_cache : HashMap K
  pub rsa_cache : HashMap R

-- The part of a variable's name that stands for a tenant.
unfoldable pub tenant_of : String → Option String
tenant_of k = and_then (strip_prefix "APP_TENANT_" k) (strip_suffix "_KEK")

module _ {C D : Type 0} (x : Crates C D) where
  -- `if let Ok(store) = KekStore::from_env() { ... }`
  unfoldable pub default_store : Env → HashMap (KekStore C)
  default_store env = elim (FromEnv.from_env x env) [
    | ok store ↦ insert "default" store []
    | err _ ↦ []
  ]

  -- `if let Ok(store) = KekStore::from_hex(kek_id, &v) { ... }`
  unfoldable pub try_tenant : String → String → String → HashMap (KekStore C) → HashMap (KekStore C)
  try_tenant tenant_id kek_id hex stores = elim (from_hex x kek_id hex) [
    | ok store ↦ insert tenant_id store stores
    | err _ ↦ stores
  ]

  -- one round of the loop over the environment
  unfoldable pub add_tenant : Env → String × String → HashMap (KekStore C) → HashMap (KekStore C)
  unfolding try_tenant tenant_of
  add_tenant env (k, v) stores = elim (tenant_of k) [
    | none ↦ stores
    | some tenant_raw ↦
        let tenant_id = x.to_lowercase tenant_raw in
        if contains_key tenant_id stores
        then stores
        else try_tenant tenant_id
            (unwrap_or (var ("APP_TENANT_" <> tenant_raw <> "_KEK_ID") env) "primary") v stores
  ]

  unfoldable pub add_tenants :
      Env → List (String × String) → HashMap (KekStore C) → HashMap (KekStore C)
  unfolding add_tenant
  add_tenants env [] stores = stores
  add_tenants env (kv ∷ vars) stores = add_tenants env vars (add_tenant env kv stores)

  -- a service with fresh caches, if there is a store
  unfoldable pub service_of :
      {K R : Type 0} → HashMap (KekStore C) → Result String (KeyService C K R)
  service_of [] = err "no KEK configured (set APP_KEK or APP_TENANT_<id>_KEK)"
  service_of (s ∷ stores) = ok (record { stores = s ∷ stores; ed25519_cache = []; rsa_cache = [] })

  unfoldable pub from_env : {K R : Type 0} → Env → Result String (KeyService C K R)
  unfolding service_of default_store add_tenants
  from_env env = service_of (add_tenants env env (default_store env))

-- The Ed25519 key that `or_insert_with` makes for a new tenant.
unfoldable pub derived_key : {K R : Type 0} → SigningCrates K R → String → K
derived_key s tenant_id = s.from_bytes (s.sha256 (as_bytes tenant_id))

module _ {C K R : Type 0} where
  unfoldable pub from_single : KekStore C → KeyService C K R
  from_single kek_store = record {
    stores = insert "default" kek_store [];
    ed25519_cache = [];
    rsa_cache = [];
  }

  unfoldable pub get_store : KeyService C K R → String → Option (KekStore C)
  get_store ks tenant_id = get tenant_id ks.stores

  unfoldable pub get_store_or_default : KeyService C K R → String → Option (KekStore C)
  get_store_or_default ks tenant_id = or_else (get tenant_id ks.stores) (get "default" ks.stores)

  module _ (s : SigningCrates K R) where
    -- the answer, and the service with its cache filled
    unfoldable pub ed25519_key : KeyService C K R → String → K × KeyService C K R
    ed25519_key ks tenant_id = elim (get tenant_id ks.ed25519_cache) [
      | some key ↦ (key, ks)
      | none ↦
          let key = derived_key s tenant_id in
          (key, record ks { ed25519_cache = insert tenant_id key ks.ed25519_cache })
    ]

    -- the same; the last number counts the draws of key pairs from `OsRng`
    unfoldable pub rsa_key : KeyService C K R → String → ℕ → R × KeyService C K R × ℕ
    rsa_key ks tenant_id i = elim (get tenant_id ks.rsa_cache) [
      | some key ↦ (key, ks, i)
      | none ↦
          let key = s.rsa_new i in
          (key, record ks { rsa_cache = insert tenant_id key ks.rsa_cache }, suc i)
    ]
