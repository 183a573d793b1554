-- ===== src/Tests/Outer.antt =====
-- Runs of the application of src/app.rs, with CORS and Swagger around its layers.
use secret_management.Prelude.{
  ℕ, String, true, false, ◌≡◌, ◌⊎◌, refl, sym, ◌==◌, if◌then◌else◌, inl, inr, none, some, [], ◌∷◌,
  Bytes, Bool-cases, eq_iff,
}
use secret_management.Std.Map.{Env, get}
use secret_management.Std.Text.{starts_with, strip_prefix}
use secret_management.Http.{Response, StatusCode, unauthorized, too_many_requests}
use secret_management.Auth.{Role, provided_key, allows}
use secret_management.Auth.Access.{Refusal}
use secret_management.App.Routes.{Body, nothing, refusal, route_of, post_sign_v1}
use secret_management.App.Serve.{Call, World}
use secret_management.App.Refused.{IsHardened, unauthorised_changes_nothing}
use secret_management.App.Schemas.{IsAnswer}
use secret_management.App.Schemas.Paths.{IsResolved, path_of, operation_at}
use secret_management.App.Outer.{
  Outer, SwaggerIsSet, enable_swagger, with_layers, application, without_key_nothing_changes,
}
use secret_management.App.Outer.Cases.{IsOuter, BySwagger, ByCors}
use secret_management.App.Outer.Hardened.{application-IsHardened}
use secret_management.App.Outer.Documented.{application-Describes}
use secret_management.Tests.Short.{short}
use secret_management.Tests.Signing.{signing}
use secret_management.Tests.App.{axum, call, environment, first, keys, refused}
use secret_management.Tests.Schemas.{axum-IsRejecting}

-- CORS that answers OPTIONS with 200, and Swagger with a page of its own.
abbrev page : Response Body
page = record { status = 200; headers = []; body = nothing }

abbrev outer : Outer String
outer = record {
  preflight = λ c. if c.method == "OPTIONS" then some page else none;
  with_cors = λ res. record res { headers = ("access-control-allow-origin", "*") ∷ res.headers };
  swagger_ui = λ c. if c.request.path == "/swagger-ui" then some page else none;
}

abbrev swagger_environment : Env
swagger_environment = ("ENABLE_SWAGGER", "1") ∷ environment

without_key_nothing_changes_example :
    (answer : Response Body) × (application outer axum short signing keys 100 swagger_environment
        first
        (call "Bearer nokey" "/encrypt" 5)
      ≡ (answer, first))
    × (((outer.swagger_ui (call "Bearer nokey" "/encrypt" 5) ≡ some answer)
          × SwaggerIsSet swagger_environment)
        ⊎ (outer.preflight (call "Bearer nokey" "/encrypt" 5) ≡ some answer)
        ⊎ ((answer ≡ outer.with_cors (refusal axum unauthorized))
            × Refusal keys (call "Bearer nokey" "/encrypt" 5).request unauthorized))
without_key_nothing_changes_example =
    without_key_nothing_changes outer axum short signing keys 100 swagger_environment first
      (call "Bearer nokey" "/encrypt" 5) unauthorized refused

-- The answer is the refusal.
refused_outside :
    application outer axum short signing keys 100 swagger_environment first
      (call "Bearer nokey" "/encrypt" 5)
    ≡ (outer.with_cors (refusal axum unauthorized), first)
unfolding application enable_swagger with_layers get
refused_outside =
    rw
      (unauthorised_changes_nothing axum short signing keys 100 first
        (call "Bearer nokey" "/encrypt" 5) unauthorized refused).0
      refl

with_cors_keeps :
    (res : Response Body) (n : String)
    → starts_with "access-control-" n ≡ false
    → (n == "vary") ≡ false
    → get n (outer.with_cors res).headers ≡ get n res.headers
unfolding get starts_with strip_prefix
with_cors_keeps res n h other = elim (Bool-cases ("access-control-allow-origin" == n)) [
  | inr e ↦ rw e refl
  | inl e ↦ cc (rw (sym ((eq_iff "access-control-allow-origin" n).0 e)) at h)
]

page_is_no_route :
    (c : Call String) (res : Response Body)
    → outer.swagger_ui c ≡ some res
    → route_of c.request.path ≡ none
unfolding route_of get
page_is_no_route c res e = elim (Bool-cases (c.request.path == "/swagger-ui")) [
  | inl here ↦ rw ((eq_iff c.request.path "/swagger-ui").0 here) refl
  | inr elsewhere ↦ cc (rw elsewhere at e)
]

only_options :
    (c : Call String) (res : Response Body) → outer.preflight c ≡ some res → c.method ≡ "OPTIONS"
only_options c res e = elim (Bool-cases (c.method == "OPTIONS")) [
  | inl here ↦ (eq_iff c.method "OPTIONS").0 here
  | inr other ↦ cc (rw other at e)
]

outer-IsOuter : IsOuter outer
outer-IsOuter = record {
  preflight_method = only_options;
  cors_status = λ res. refl;
  cors_body = λ res. refl;
  cors_headers = with_cors_keeps;
  swagger_path = page_is_no_route;
}

abbrev sign_call : Call String
sign_call = call "Bearer key" "/v1/crypto/sign" 5

abbrev answered : Response Body × World Bytes Bytes ℕ
answered = application outer axum short signing keys 100 swagger_environment first sign_call

application-IsHardened_example :
    ((answered.1 ≡ first)
      × ((BySwagger outer axum short signing keys 100 swagger_environment first sign_call answered.0
            × (route_of "/v1/crypto/sign" ≡ none))
          ⊎ ByCors outer axum short signing keys 100 swagger_environment first sign_call
              answered.0))
    ⊎ (((status : StatusCode) × (Refusal keys sign_call.request status
            ⊎ (status ≡ too_many_requests))
          × (answered.0.status ≡ status)
          × (answered.0.body ≡ nothing))
        ⊎ (IsHardened answered.0
            × ((role : Role) × (get (provided_key sign_call.request) keys.keys ≡ some role)
                × (allows role "/v1/crypto/sign" ≡ true))))
application-IsHardened_example =
    application-IsHardened outer axum short signing keys 100 outer-IsOuter swagger_environment first
      sign_call

application-Describes_example :
    IsResolved post_sign_v1
    × (((answered.1 ≡ first)
          × ByCors outer axum short signing keys 100 swagger_environment first sign_call answered.0)
        ⊎ IsAnswer post_sign_v1 answered.0)
unfolding operation_at path_of
application-Describes_example =
    application-Describes outer axum short signing keys 100 swagger_environment first sign_call
      axum-IsRejecting outer-IsOuter
