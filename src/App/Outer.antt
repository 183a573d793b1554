-- ===== src/App/Outer.antt =====
-- What src/app.rs puts around the layers of the routes: CORS, and the pages of Swagger where the
-- environment enables them.
pub mod Cases
pub mod Hardened
pub mod Documented
use secret_management.Prelude.{
  ℕ, ◌==◌, ◌||◌, Bool, true, false, if◌then◌else◌, Option, none, some, Option-cases, Bool-cases,
  ◌≡◌, refl, ◌⊎◌, inl, inr, err, ok, arith,
}
use text.Mathlib.TextEquality.{eq_iff}
use secret_management.Std.Map.{Env, var}
use secret_management.Http.{Response, StatusCode}
use secret_management.Crates.{Crates, SigningCrates}
use secret_management.Auth.{ApiKeyStore, require_api_key}
use secret_management.Auth.Access.{Refusal}
use secret_management.App.Routes.{Body, Axum, refusal}
use secret_management.App.Serve.{Call, World, serve}
use secret_management.App.Refused.{unauthorised_changes_nothing}

-- What other packages answer by themselves: `CorsLayer` to a preflight request, and the router of
-- `SwaggerUi` to a path of its own, or to one that is nobody's where it is merged; and the headers
-- that `CorsLayer` adds to the answer to another request.
pub record Outer (B : Type 0) : Type 0 where
  pub preflight : Call B → Option (Response Body)
  pub with_cors : Response Body → Response Body
  pub swagger_ui : Call B → Option (Response Body)

unfoldable pub enable_swagger : Env → Bool
enable_swagger env = elim (var "ENABLE_SWAGGER" env) [
  | none ↦ false
  | some v ↦ v == "true" || v == "1"
]

-- The variable is set to one of the two texts.
abbrev pub SwaggerIsSet : Env → Type 0
SwaggerIsSet env = (var "ENABLE_SWAGGER" env ≡ some "true") ⊎ (var "ENABLE_SWAGGER" env ≡ some "1")

pub enable_swagger-eq-true : (env : Env) → enable_swagger env ≡ true → SwaggerIsSet env
unfolding enable_swagger
enable_swagger-eq-true env e = elim (Option-cases (var "ENABLE_SWAGGER" env)) [
  | inl q ↦ cc (rw (enable_swagger, q) at e)
  | inr (v, q) ↦ ground (arith, q, (rw (enable_swagger, q) at e), eq_iff v "true", eq_iff v "1")
]

module _ {B C D K R : Type 0} (o : Outer B) (ax : Axum B) (x : Crates C D) (s : SigningCrates K R)
    (keys : ApiKeyStore) (max : ℕ) where
  abbrev pub passed : Response Body × World C K R → Response Body × World C K R
  passed (res, w) = (o.with_cors res, w)

  -- `.layer(cors)`; the layer of the traces changes nothing
  unfoldable pub with_layers : World C K R → Call B → Response Body × World C K R
  with_layers w c = elim (o.preflight c) [
    | some res ↦ (res, w)
    | none ↦ passed (serve ax x s keys max w c)
  ]

  -- the router that `create_app` gives
  unfoldable pub application : Env → World C K R → Call B → Response Body × World C K R
  application env w c =
      if enable_swagger env
      then elim (o.swagger_ui c) [ some res ↦ (res, w) | none ↦ with_layers w c ]
      else with_layers w c

  layers_refuse :
      (w : World C K R) (c : Call B) (status : StatusCode)
      → require_api_key keys c.request ok ≡ err status
      → (answer : Response Body) × (with_layers w c ≡ (answer, w))
        × ((o.preflight c ≡ some answer)
            ⊎ ((answer ≡ o.with_cors (refusal ax status)) × Refusal keys c.request status))
  unfolding with_layers
  layers_refuse w c status e = elim (Option-cases (o.preflight c)) [
    | inl q ↦
        let (same, reason) = unauthorised_changes_nothing ax x s keys max w c status e in
        (o.with_cors (refusal ax status), rw (with_layers, q, same) refl, inr (refl, reason))
    | inr (res, q) ↦ (res, rw (with_layers, q) refl, inl q)
  ]

  -- A request that the check of the API key refuses changes nothing, whatever CORS and Swagger answer
  -- by themselves, for every setting of ENABLE_SWAGGER: no handler runs, no draw is made, and the rate
  -- limit does not count it. The answer is that of Swagger's router, with ENABLE_SWAGGER "true" or "1"
  -- only, or that of CORS to a preflight request, or the bare status of the refusal under the headers
  -- of CORS, and this status tells the reason.
  pub without_key_nothing_changes :
      (env : Env) (w : World C K R) (c : Call B) (status : StatusCode)
      → require_api_key keys c.request ok ≡ err status
      → (answer : Response Body) × (application env w c ≡ (answer, w))
        × (((o.swagger_ui c ≡ some answer) × SwaggerIsSet env)
            ⊎ (o.preflight c ≡ some answer)
            ⊎ ((answer ≡ o.with_cors (refusal ax status)) × Refusal keys c.request status))
  unfolding application
  without_key_nothing_changes env w c status e =
      let (answer, same, reason) = layers_refuse w c status e in
      elim (Bool-cases (enable_swagger env)) [
        | inl set ↦ elim (Option-cases (o.swagger_ui c)) [
          | inl q ↦ (answer, rw (set, q) same, inr reason)
          | inr (res, q) ↦ (res, rw (set, q) refl, inl (q, enable_swagger-eq-true env set))
        ]
        | inr unset ↦ (answer, rw unset same, inr reason)
      ]
