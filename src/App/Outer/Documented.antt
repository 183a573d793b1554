-- ===== src/App/Outer/Documented.antt =====
-- The OpenAPI document of src/app.rs and the answers of the application.
use secret_management.Prelude.{
  ℕ, ◌≡◌, refl, sym, ◌∙◌, ◌⊎◌, inl, inr, true, Option, none, some, subst,
}
use secret_management.Std.Map.{Env}
use secret_management.Http.{Response}
use secret_management.Crates.{Crates, SigningCrates}
use secret_management.Auth.{ApiKeyStore}
use secret_management.Headers.{security_headers}
use secret_management.App.Routes.{Route, Body, nothing, Axum, route_of}
use secret_management.App.Refused.{IsHardened, security_headers-IsHardened}
use secret_management.App.Serve.{Call, World, serve}
use secret_management.App.Schemas.{is_in, layer_refusals, IsRejecting, IsAnswer}
use secret_management.App.Schemas.Paths.{
  api_paths, operation_at, IsResolved, resolved, route_of-eq-operation_at, IsDocumented,
  serve-IsDocumented,
}
use secret_management.App.Outer.{Outer, application, passed}
use secret_management.App.Outer.Cases.{
  IsOuter, with_cors-IsHardened, BySwagger, ByCors, application-Outcome,
}

module _ {B : Type 0} (o : Outer B) (outside : IsOuter o) where
  with_cors-IsAnswer :
      (route : Route) (res : Response Body) → IsAnswer route res → IsAnswer route (o.with_cors res)
  with_cors-IsAnswer route res h = rw (outside.cors_status res, outside.cors_body res) h

module _ {B C D K R : Type 0} (o : Outer B) (ax : Axum B) (x : Crates C D) (s : SigningCrates K R)
    (keys : ApiKeyStore) (max : ℕ) (env : Env) (w : World C K R) (c : Call B) where
  -- What the document says of the answer to a request, and of the state then.
  abbrev pub Describes : Option Route → Response Body × World C K R → Type 0
  Describes none (res, w') =
      (w'.app ≡ w.app)
      × (w'.draws ≡ w.draws)
      × (BySwagger o ax x s keys max env w c res
          ⊎ ByCors o ax x s keys max env w c res
          ⊎ ((res.status ≡ ax.not_found.status) × (res.body ≡ ax.not_found.body) × IsHardened res)
          ⊎ ((is_in res.status layer_refusals ≡ true) × (res.body ≡ nothing)))
  Describes (some route) (res, w') =
      IsResolved route × (((w' ≡ w) × ByCors o ax x s keys max env w c res) ⊎ IsAnswer route res)

  passed-Describes :
      (rejecting : IsRejecting ax)
      → IsOuter o
      → (op : Option Route) (answered : Response Body × World C K R)
      → IsDocumented ax x s rejecting keys max w c op answered
      → Describes op (passed o ax x s keys max answered)
  unfolding security_headers
  passed-Describes rejecting outside none (res, w') (same_app, same_draws, inl e) = (
    same_app,
    same_draws,
    inr (
        inr (
          inl (
            rw (outside.cors_status res, e) refl,
            rw (outside.cors_body res, e) refl,
            with_cors-IsHardened o outside res
                (subst IsHardened (sym e) (security_headers-IsHardened ax.not_found)),
          ))),
  )
  passed-Describes rejecting outside none (res, w') (same_app, same_draws, inr (code, empty)) = (
    same_app,
    same_draws,
    inr (inr (inr (rw (outside.cors_status res) code, outside.cors_body res ∙ empty))),
  )
  passed-Describes rejecting outside (some route) (res, w') (known, answer) =
      (known, inr (with_cors-IsAnswer o outside route res answer))

  aside-Describes :
      IsOuter o
      → (op : Option Route) (res : Response Body) → route_of c.request.path ≡ op
      → BySwagger o ax x s keys max env w c res ⊎ ByCors o ax x s keys max env w c res
      → Describes op (res, w)
  aside-Describes outside none res e (inl q) = (refl, refl, inl q)
  aside-Describes outside none res e (inr q) = (refl, refl, inr (inl q))
  aside-Describes outside (some route) res e (inl q) = cc (outside.swagger_path c res q.0, e)
  aside-Describes outside (some route) res e (inr q) = (resolved route, inl (refl, q))

  -- Where the extractors of axum, CORS and Swagger are as they are documented, for every setting of
  -- ENABLE_SWAGGER and in every state of the process: a request to a path that the OpenAPI document
  -- lists, but for what CORS answers itself to the method OPTIONS, is answered with status 200 and the
  -- body that the attribute of the handler declares for it, or with a text and one of the statuses with
  -- which that handler or its extractor refuses, or with no body and the status 401, 403, 405, 429 or
  -- 500 of a layer; and every schema that the operation refers to is among the components of the
  -- document. For every other path no handler runs and no draw is made: Swagger's router or CORS
  -- answers, or the fallback of the router with the security headers, or such a refusal of a layer.
  pub application-Describes :
      IsRejecting ax
      → IsOuter o
      → Describes (operation_at api_paths c.request.path) (application o ax x s keys max env w c)
  application-Describes rejecting outside =
      let op = operation_at api_paths c.request.path in
      elim (application-Outcome o ax x s keys max env w c outside) [
        | inl (res, same, aside) ↦
            subst (Describes op) (sym same)
              (aside-Describes outside op res (route_of-eq-operation_at c.request.path) aside)
        | inr same ↦ subst (Describes op) (sym same) (
            passed-Describes rejecting outside op (serve ax x s keys max w c)
              (serve-IsDocumented ax x s rejecting keys max w c))
      ]
