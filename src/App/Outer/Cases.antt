-- ===== src/App/Outer/Cases.antt =====
-- Who answers a request to the application of src/app.rs: Swagger, CORS or the layers of the routes.
use secret_management.Prelude.{
  String, ◌==◌, ◌≡◌, refl, sym, ◌∙◌, ◌⊎◌, inl, inr, false, some, none, All, [], ◌∷◌, Option-cases,
  Bool-cases, ℕ, subst,
}
use secret_management.Std.Map.{Env, HashMap, get}
use secret_management.Std.Text.{starts_with, strip_prefix}
use secret_management.Http.{Response}
use secret_management.Crates.{Crates, SigningCrates}
use secret_management.Auth.{ApiKeyStore}
use secret_management.Headers.Table.{fixed_headers}
use secret_management.App.Routes.{Body, Axum, route_of}
use secret_management.App.Refused.{IsHardened}
use secret_management.App.Serve.{Call, World, serve}
use secret_management.App.Outer.{
  Outer, SwaggerIsSet, enable_swagger, enable_swagger-eq-true, passed, with_layers, application,
}

-- What the documentation of the packages promises: CORS answers itself requests with the method
-- OPTIONS only, and to the others it adds headers named "access-control-…" and "vary" only; a router
-- that is merged has no path of the other, or the merge panics.
pub record IsOuter {B : Type 0} (o : Outer B) : Type 0 where
  pub preflight_method :
      (c : Call B) (res : Response Body) → o.preflight c ≡ some res → c.method ≡ "OPTIONS"
  pub cors_status : (res : Response Body) → (o.with_cors res).status ≡ res.status
  pub cors_body : (res : Response Body) → (o.with_cors res).body ≡ res.body
  pub cors_headers :
      (res : Response Body) (n : String)
      → starts_with "access-control-" n ≡ false
      → (n == "vary") ≡ false
      → get n (o.with_cors res).headers ≡ get n res.headers
  pub swagger_path :
      (c : Call B) (res : Response Body)
      → o.swagger_ui c ≡ some res
      → route_of c.request.path ≡ none

module _ {B : Type 0} (o : Outer B) (outside : IsOuter o) where
  abbrev IsOther : String → Type 0
  IsOther n = (starts_with "access-control-" n ≡ false) × ((n == "vary") ≡ false)

  cors_keeps_table :
      (res : Response Body) (table : HashMap String)
      → All (λ (p : String × String). IsOther p.0) table
      → All (λ (p : String × String). get p.0 res.headers ≡ some p.1) table
      → All (λ (p : String × String). get p.0 (o.with_cors res).headers ≡ some p.1) table
  cors_keeps_table res [] other h = tt
  cors_keeps_table res ((k, v) ∷ table) ((a, b), other) (e, h) =
      (outside.cors_headers res k a b ∙ e, cors_keeps_table res table other h)

  -- CORS keeps the security headers.
  pub with_cors-IsHardened : (res : Response Body) → IsHardened res → IsHardened (o.with_cors res)
  unfolding starts_with strip_prefix
  with_cors-IsHardened res (fixed, server) = (
    cors_keeps_table res fixed_headers
        (
          (refl, refl),
          (
            (refl, refl),
            ((refl, refl), ((refl, refl), ((refl, refl), ((refl, refl), ((refl, refl), tt))))),
          ),
        )
        fixed,
    outside.cors_headers res "server" refl refl ∙ server,
  )

module _ {B C D K R : Type 0} (o : Outer B) (ax : Axum B) (x : Crates C D) (s : SigningCrates K R)
    (keys : ApiKeyStore) (max : ℕ) (env : Env) (w : World C K R) (c : Call B) where
  -- Swagger's router or CORS answers by itself.
  abbrev pub BySwagger : Response Body → Type 0
  BySwagger res = (o.swagger_ui c ≡ some res) × SwaggerIsSet env

  abbrev pub ByCors : Response Body → Type 0
  ByCors res = (o.preflight c ≡ some res) × (c.method ≡ "OPTIONS")

  -- Swagger's router or CORS answers, and nothing changes, or the layers of the routes through CORS.
  abbrev pub Outcome : Response Body × World C K R → Type 0
  Outcome answered =
      ((res : Response Body) × (answered ≡ (res, w)) × (BySwagger res ⊎ ByCors res))
      ⊎ (answered ≡ passed o ax x s keys max (serve ax x s keys max w c))

  with_layers-Outcome : IsOuter o → Outcome (with_layers o ax x s keys max w c)
  unfolding with_layers
  with_layers-Outcome outside = elim (Option-cases (o.preflight c)) [
    | inl q ↦ inr (rw (with_layers, q) refl)
    | inr (res, q) ↦ inl (res, rw (with_layers, q) refl, inr (q, outside.preflight_method c res q))
  ]

  pub application-Outcome : IsOuter o → Outcome (application o ax x s keys max env w c)
  unfolding application
  application-Outcome outside =
      let behind =
        λ (e : application o ax x s keys max env w c ≡ with_layers o ax x s keys max w c).
          subst Outcome (sym e) (with_layers-Outcome outside) in
      elim (Bool-cases (enable_swagger env)) [
        | inr unset ↦ behind (rw (application, unset) refl)
        | inl set ↦ elim (Option-cases (o.swagger_ui c)) [
          | inl q ↦ behind (rw (application, set, q) refl)
          | inr (res, q) ↦
              inl (res, rw (application, set, q) refl, inl (q, enable_swagger-eq-true env set))
        ]
      ]
