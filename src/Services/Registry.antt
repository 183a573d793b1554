-- ===== src/Services/Registry.antt =====
-- What src/services/key_service.rs registers: consistent stores, and the default store under its name.
use Prim.Native.String.{◌++◌ as ◌<>◌}
use secret_management.Prelude.{
  some_inj, String, ◌≡◌, ◌≢◌, refl, sym, ap, ◌∙◌, some, List, [], ◌∷◌, ok, Bool-cases, Option-cases,
  Result-cases, inl, inr, unwrap_or, ◌==◌, ok_inj, subst,
}
use secret_management.Std.Map.{
  HashMap, Env, var, get, insert, get-insert, get-insert_ne, get-insert_self, contains_key,
}
use secret_management.Crates.{Crates, IsLawful}
use secret_management.Kek.{KekStore}
use secret_management.Kek.FromEnv.{from_hex}
use secret_management.Kek.FromEnv
use secret_management.Kek.Invariant.{IsConsistent, from_env-IsConsistent, from_hex-IsConsistent}
use secret_management.Services.KeyService.{
  KeyService, tenant_of, default_store, try_tenant, add_tenant, add_tenants, service_of, get_store,
}
use secret_management.Services.KeyService

module _ {C D : Type 0} (x : Crates C D) where
  -- What a step of the scan keeps: a property of each store, and what is found under an id.
  abbrev pub AllConsistent : HashMap (KekStore C) → Type 0
  AllConsistent stores = (t : String) (st : KekStore C) → get t stores ≡ some st → IsConsistent x st

  module _ (lawful : IsLawful x) where
    insert-AllConsistent :
        (t : String) (st : KekStore C) (stores : HashMap (KekStore C))
        → IsConsistent x st
        → AllConsistent stores
        → AllConsistent (insert t st stores)
    insert-AllConsistent t st stores h all u su e = elim (Bool-cases (t == u)) [
      | inl same ↦ subst (IsConsistent x) (some_inj (rw (get-insert, same) at e)) h
      | inr other ↦ all u su (rw (get-insert, other) at e)
    ]

    try_tenant-AllConsistent :
        (t kek_id hex : String) (stores : HashMap (KekStore C))
        → AllConsistent stores
        → AllConsistent (try_tenant x t kek_id hex stores)
    unfolding try_tenant
    try_tenant-AllConsistent t kek_id hex stores all = elim (Result-cases (from_hex x kek_id hex)) [
      | inl (st, e) ↦
          rw (e, try_tenant)
            (insert-AllConsistent t st stores (from_hex-IsConsistent x lawful kek_id hex st e) all)
      | inr (c, e) ↦ rw (e, try_tenant) all
    ]

    add_tenant-AllConsistent :
        (env : Env) (kv : String × String) (stores : HashMap (KekStore C))
        → AllConsistent stores
        → AllConsistent (add_tenant x env kv stores)
    unfolding add_tenant
    add_tenant-AllConsistent env (k, v) stores all = elim (Option-cases (tenant_of k)) [
      | inl e ↦ rw (e, add_tenant) all
      | inr (raw, e) ↦ elim (Bool-cases (contains_key (x.to_lowercase raw) stores)) [
        | inl there ↦ rw (e, add_tenant, there) all
        | inr free ↦
            rw (e, add_tenant, free)
              (try_tenant-AllConsistent (x.to_lowercase raw)
                (unwrap_or (var ("APP_TENANT_" <> raw <> "_KEK_ID") env) "primary") v stores all)
      ]
    ]

    add_tenants-AllConsistent :
        (env : Env) (vars : List (String × String)) (stores : HashMap (KekStore C))
        → AllConsistent stores
        → AllConsistent (add_tenants x env vars stores)
    unfolding add_tenants
    add_tenants-AllConsistent env [] stores all = all
    add_tenants-AllConsistent env (kv ∷ vars) stores all =
        add_tenants-AllConsistent env vars (add_tenant x env kv stores)
          (add_tenant-AllConsistent env kv stores all)

    default_store-AllConsistent : (env : Env) → AllConsistent (default_store x env)
    unfolding default_store get
    default_store-AllConsistent env = elim (Result-cases (FromEnv.from_env x env)) [
      | inl (st, e) ↦
          rw (e, default_store)
            (insert-AllConsistent "default" st [] (from_env-IsConsistent x lawful env st e)
              (λ t su p. cc))
      | inr (c, e) ↦ rw (e, default_store) (λ t su p. cc)
    ]

  stores-service_of :
      {K R : Type 0} (stores : HashMap (KekStore C)) (ks : KeyService C K R)
      → service_of x stores ≡ ok ks
      → ks.stores ≡ stores
  unfolding service_of
  stores-service_of [] ks e = cc
  stores-service_of {K = K} {R = R} (s ∷ stores) ks e =
      sym (ap (λ (k : KeyService C K R). k.stores) (ok_inj e))

  service_of-filled :
      {K R : Type 0} (stores : HashMap (KekStore C)) (st : KekStore C)
      → get "default" stores ≡ some st
      → (ks : KeyService C K R) × (service_of x stores ≡ ok ks) × (get_store ks "default" ≡ some st)
  unfolding service_of get_store get
  service_of-filled [] st e = cc
  service_of-filled (s ∷ stores) st e =
      (record { stores = s ∷ stores; ed25519_cache = []; rsa_cache = [] }, refl, e)

  -- Every store of a service that is built from the environment is consistent, if a key in
  -- hexadecimal has 32 bytes: ciphers and raw keys agree, keys have 32 bytes, and the current id has
  -- no former key.
  pub from_env-AllConsistent :
      IsLawful x
      → {K R : Type 0} (env : Env) (ks : KeyService C K R) → KeyService.from_env x env ≡ ok ks
      → (t : String) (st : KekStore C) → get_store ks t ≡ some st
      → IsConsistent x st
  unfolding KeyService.from_env get_store
  from_env-AllConsistent lawful env ks e t st found =
      add_tenants-AllConsistent lawful env env (default_store x env)
        (default_store-AllConsistent lawful env) t st
        (ap (get t) (sym (stores-service_of (add_tenants x env env (default_store x env)) ks e))
          ∙ found)

  get-try_tenant :
      (t' kek_id hex t : String) (st : KekStore C) (stores : HashMap (KekStore C))
      → t' ≢ t
      → get t stores ≡ some st
      → get t (try_tenant x t' kek_id hex stores) ≡ some st
  unfolding try_tenant
  get-try_tenant t' kek_id hex t st stores other e = elim (Result-cases (from_hex x kek_id hex)) [
    | inl (su, p) ↦ rw (p, try_tenant) (get-insert_ne t' t su stores other ∙ e)
    | inr (c, p) ↦ rw (p, try_tenant) e
  ]

  -- The scan replaces no store.
  get-add_tenant :
      (env : Env) (kv : String × String) (t : String) (st : KekStore C)
      (stores : HashMap (KekStore C))
      → get t stores ≡ some st
      → get t (add_tenant x env kv stores) ≡ some st
  unfolding add_tenant
  get-add_tenant env (k, v) t st stores e = elim (Option-cases (tenant_of k)) [
    | inl p ↦ rw (p, add_tenant) e
    | inr (raw, p) ↦ elim (Bool-cases (contains_key (x.to_lowercase raw) stores)) [
      | inl there ↦ rw (p, add_tenant, there) e
      | inr free ↦
          rw (p, add_tenant, free)
            (get-try_tenant (x.to_lowercase raw)
              (unwrap_or (var ("APP_TENANT_" <> raw <> "_KEK_ID") env) "primary") v t st stores
              (λ q. cc (rw (q, e) at free)) e)
    ]
  ]

  get-add_tenants :
      (env : Env) (vars : List (String × String)) (t : String) (st : KekStore C)
      (stores : HashMap (KekStore C))
      → get t stores ≡ some st
      → get t (add_tenants x env vars stores) ≡ some st
  unfolding add_tenants
  get-add_tenants env [] t st stores e = e
  get-add_tenants env (kv ∷ vars) t st stores e =
      get-add_tenants env vars t st (add_tenant x env kv stores)
        (get-add_tenant env kv t st stores e)

  -- Where the environment gives a default store, the service is built, and has that store under
  -- "default", whatever the variables of the tenants.
  pub default-from_env :
      {K R : Type 0} (env : Env) (st : KekStore C)
      → FromEnv.from_env x env ≡ ok st
      → (ks : KeyService C K R) × (KeyService.from_env x env ≡ ok ks)
        × (get_store ks "default" ≡ some st)
  unfolding KeyService.from_env default_store
  default-from_env {K = K} {R = R} env st e =
      let kept : get "default" (add_tenants x env env (default_store x env)) ≡ some st =
        get-add_tenants env env "default" st (default_store x env)
          (rw (e, default_store) (get-insert_self "default" st [])) in
      service_of-filled {K = K} {R = R} (add_tenants x env env (default_store x env)) st kept
