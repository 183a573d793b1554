-- ===== src/App/Outer/Hardened.antt =====
-- The headers of the answers of the application of src/app.rs, and who gets them.
use secret_management.Prelude.{ℕ, ◌≡◌, refl, ap, ◌∙◌, ◌⊎◌, inl, inr, true, none, some}
use secret_management.Std.Map.{Env, get}
use secret_management.Http.{Response, StatusCode, too_many_requests}
use secret_management.Crates.{Crates, SigningCrates}
use secret_management.Auth.{Role, ApiKeyStore, provided_key, allows}
use secret_management.Auth.Access.{Refusal}
use secret_management.App.Routes.{Body, nothing, Axum, refusal, route_of}
use secret_management.App.Refused.{IsHardened, serve-IsHardened}
use secret_management.App.Serve.{Call, World}
use secret_management.App.Outer.{Outer, application}
use secret_management.App.Outer.Cases.{
  IsOuter, with_cors-IsHardened, BySwagger, ByCors, application-Outcome,
}

module _ {B C D K R : Type 0} (o : Outer B) (ax : Axum B) (x : Crates C D) (s : SigningCrates K R)
    (keys : ApiKeyStore) (max : ℕ) where
  -- With CORS and Swagger as they are documented, for every setting of ENABLE_SWAGGER, an answer of the
  -- application is one of these. Swagger's router gives it, with ENABLE_SWAGGER "true" or "1", to a
  -- path that is no route, or CORS to a request with the method OPTIONS, and the state is kept. Or it
  -- has no body and the status by which the check of the key or the rate limit refuses. Or it has the
  -- security headers, and the request presented a key whose role allows the path.
  pub application-IsHardened :
      IsOuter o
      → (env : Env) (w : World C K R) (c : Call B)
      → (((application o ax x s keys max env w c).1 ≡ w)
          × ((BySwagger o ax x s keys max env w c (application o ax x s keys max env w c).0
                × (route_of c.request.path ≡ none))
              ⊎ ByCors o ax x s keys max env w c (application o ax x s keys max env w c).0))
        ⊎ (((status : StatusCode) × (Refusal keys c.request status ⊎ (status ≡ too_many_requests))
              × ((application o ax x s keys max env w c).0.status ≡ status)
              × ((application o ax x s keys max env w c).0.body ≡ nothing))
            ⊎ (IsHardened (application o ax x s keys max env w c).0
                × ((role : Role) × (get (provided_key c.request) keys.keys ≡ some role)
                    × (allows role c.request.path ≡ true))))
  unfolding refusal
  application-IsHardened outside env w c =
      elim (application-Outcome o ax x s keys max env w c outside) [
        | inl (res, same, inl by_swagger) ↦
            rw same (inl (refl, inl (by_swagger, outside.swagger_path c res by_swagger.0)))
        | inl (res, same, inr by_cors) ↦ rw same (inl (refl, inr by_cors))
        | inr same ↦ elim (serve-IsHardened ax x s keys max w c) [
          | inl (status, reason, e) ↦ rw same (
              inr (
                inl (
                  status,
                  reason,
                  outside.cors_status _ ∙ ap (λ (r : Response Body). r.status) e,
                  outside.cors_body _ ∙ ap (λ (r : Response Body). r.body) e,
                )))
          | inr (hardened, known) ↦
              rw same (inr (inr (with_cors-IsHardened o outside _ hardened, known)))
        ]
      ]
