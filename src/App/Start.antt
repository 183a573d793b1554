-- ===== src/App/Start.antt =====
-- What `create_app` of src/app.rs starts with.
use secret_management.Prelude.{
  ◌≡◌, sym, ap, ◌∙◌, ◌↔◌, inl, inr, some, ok, Result-cases, ok_inj, subst,
}
use secret_management.Std.Map.{Env}
use secret_management.Crates.{Crates}
use secret_management.Kek.FromEnv
use secret_management.Services.KeyService.{KeyService, get_store}
use secret_management.Services.KeyService
use secret_management.Services.Registry.{default-from_env}
use secret_management.App.{AppState, create_app}

module _ {C D K R : Type 0} (x : Crates C D) (env : Env) where
  -- What the environment gives.
  abbrev pub IsRead : AppState C K R → Type 0
  IsRead app =
      (FromEnv.from_env x env ≡ ok app.kek_store) × (KeyService.from_env x env ≡ ok app.key_service)

  create_app-IsRead : (app : AppState C K R) → create_app x env ≡ ok app → IsRead app
  unfolding create_app
  create_app-IsRead app e = elim (Result-cases (FromEnv.from_env x env)) [
    | inr (c, p) ↦ cc (rw (p, create_app) at e)
    | inl (st, p) ↦
        let (ks, q, _) = default-from_env x {K = K} {R = R} env st p in
        let same : record { kek_store = st; key_service = ks } ≡ app =
          ok_inj (rw (p, create_app, q) at e) in
        subst IsRead same (p, q)
  ]

  create_app_of : (app : AppState C K R) → IsRead app → create_app x env ≡ ok app
  unfolding create_app
  create_app_of app (p, q) = rw (p, create_app, q)

  default_of :
      (app : AppState C K R) → IsRead app → get_store app.key_service "default" ≡ some app.kek_store
  default_of app (p, q) =
      let (ks, made, found) = default-from_env x {K = K} {R = R} env app.kek_store p in
      ap (λ (k : KeyService C K R). get_store k "default") (ok_inj (sym q ∙ made)) ∙ found

  -- The program starts with a state exactly if its store and its service are those that
  -- `KekStore::from_env` and `KeyService::from_env` read: the service of the one store is never used.
  -- The store of /encrypt and /decrypt is then the one that the service has under "default".
  pub create_app_iff :
      (app : AppState C K R)
      → ((create_app x env ≡ ok app) ↔ IsRead app)
        × (create_app x env ≡ ok app → get_store app.key_service "default" ≡ some app.kek_store)
  create_app_iff app =
      ((create_app-IsRead app, create_app_of app), λ e. default_of app (create_app-IsRead app e))
