-- ===== src/App/Schemas/Paths.antt =====
-- The paths of the OpenAPI document of src/app.rs, and the routes that are served.
use secret_management.Prelude.{
  ◌⊎◌, inl, inr, Bool, true, false, ◌||◌, All, sym, ℕ, subst, Option, none, String, ◌≡◌, refl, ◌==◌,
  if◌then◌else◌, some, List, [], ◌∷◌,
}
use secret_management.Std.Map.{get}
use secret_management.Http.{Response, StatusCode}
use secret_management.Crates.{Crates, SigningCrates}
use secret_management.Auth.{ApiKeyStore}
use secret_management.App.Operations.{operation_of}
use secret_management.App.Serve.{Call, World, serve}
use secret_management.App.Answers.{serve-Served, unauthorised, over_limit, admitted}
use secret_management.Headers.{security_headers}
use secret_management.Auth.Access.{require_api_key-Refusal}
use secret_management.App.Schemas.{is_in, layer_refusals, IsRejecting, IsAnswer}
use secret_management.App.Schemas.Kept.{serve-IsAnswer, Refusal-layer}
use secret_management.App.Routes.{
  Route, Body, nothing, refusal, Axum, post_encrypt, post_decrypt, post_encrypt_v1, post_decrypt_v1,
  post_sign_v1, post_verify_v1, post_hash_v1, route_of,
}

unfoldable pub path_of : Route → String
path_of route = (operation_of route).path

-- `paths(…)` of `ApiDoc`
abbrev pub api_paths : List Route
api_paths =
    post_encrypt ∷ post_decrypt ∷ post_encrypt_v1 ∷ post_decrypt_v1 ∷ post_sign_v1 ∷ post_verify_v1
    ∷ post_hash_v1 ∷ []

-- The schemas that an operation refers to.
abbrev pub names : List (StatusCode × String) → List String
names [] = []
names ((code, schema) ∷ responses) = schema ∷ names responses

-- `components(schemas(…))` of `ApiDoc`
abbrev pub api_schemas : List String
api_schemas =
    "EncryptRequest" ∷ "EncryptResponse" ∷ "DecryptRequest" ∷ "DecryptResponse" ∷ "ErrorResponse"
    ∷ "EncryptDto" ∷ "DecryptDto" ∷ "SignDto" ∷ "VerifyDto" ∷ "HashDto" ∷ "EncryptV1Response"
    ∷ "DecryptV1Response" ∷ "SignResponse" ∷ "VerifyResponse" ∷ "HashResponse" ∷ []

unfoldable pub is_listed : List String → String → Bool
is_listed [] name = false
is_listed (schema ∷ schemas) name = schema == name || is_listed schemas name

-- Every schema that the operation refers to is among the components of the document.
abbrev pub IsResolved : Route → Type 0
IsResolved route =
    All (λ (name : String). is_listed api_schemas name ≡ true)
      ((operation_of route).request_body ∷ names (operation_of route).responses)

pub resolved : (route : Route) → IsResolved route
unfolding is_listed
resolved post_encrypt = (refl, (refl, (refl, (refl, (refl, (refl, (refl, (refl, tt))))))))
resolved post_decrypt = (refl, (refl, (refl, (refl, (refl, (refl, (refl, (refl, tt))))))))
resolved post_encrypt_v1 = (refl, (refl, tt))
resolved post_decrypt_v1 = (refl, (refl, tt))
resolved post_sign_v1 = (refl, (refl, tt))
resolved post_verify_v1 = (refl, (refl, tt))
resolved post_hash_v1 = (refl, (refl, tt))

-- The operation that the document has at a path.
unfoldable pub operation_at : List Route → String → Option Route
operation_at [] path = none
operation_at (route ∷ routes) path =
    let rest = operation_at routes path in if path_of route == path then some route else rest

-- The document and the router agree on every path: the operation that the document has there is the
-- route that is served there, and where it has none there is no route.
pub route_of-eq-operation_at : (path : String) → route_of path ≡ operation_at api_paths path
unfolding route_of get operation_at path_of
route_of-eq-operation_at path = refl

module _ {B C D K R : Type 0} (ax : Axum B) (x : Crates C D) (s : SigningCrates K R)
    (rejecting : IsRejecting ax) (keys : ApiKeyStore) (max : ℕ) (w : World C K R) (c : Call B) where
  -- What the document says of the answer to a request.
  abbrev pub IsDocumented : Option Route → Response Body × World C K R → Type 0
  IsDocumented none (res, w') =
      (w'.app ≡ w.app)
      × (w'.draws ≡ w.draws)
      × ((res ≡ security_headers ax.not_found)
          ⊎ ((is_in res.status layer_refusals ≡ true) × (res.body ≡ nothing)))
  IsDocumented (some route) (res, w') = IsResolved route × IsAnswer route res

  not_found-IsDocumented :
      route_of c.request.path ≡ none → IsDocumented none (serve ax x s keys max w c)
  unfolding refusal is_in
  not_found-IsDocumented found =
      let at_answer =
        λ (v : Response Body × World C K R) (e : serve ax x s keys max w c ≡ v)
            (h : IsDocumented none v).
          subst (IsDocumented none) (sym e) h in
      elim (serve-Served ax x s keys max w c) [
        | unauthorised status q e ↦ at_answer _ e (
          refl,
          refl,
          inr (
            Refusal-layer ax x s rejecting keys c status
                (require_api_key-Refusal keys c.request status q),
            refl,
          ),
        )
        | over_limit role q r e ↦ at_answer _ e (refl, refl, inr (refl, refl))
        | admitted role q r e ↦ at_answer _ e (rw found (refl, refl, inl refl))
      ]

  -- Where the extractors refuse as axum documents, and in every state of the process: a request to a
  -- path that the OpenAPI document lists is answered by the layers with status 200 and the body that the attribute
  -- of the handler declares for it, or with a text and one of the statuses with which that handler or
  -- its extractor refuses, or with no body and the status 401, 403, 405, 429 or 500 of a layer; and
  -- every schema that the operation refers to is among the components of the document. Every
  -- other path is answered by the fallback of the router, with the security headers, or by such a
  -- refusal; no handler runs and no draw is made.
  pub serve-IsDocumented :
      IsDocumented (operation_at api_paths c.request.path) (serve ax x s keys max w c)
  serve-IsDocumented =
      subst (λ o. IsDocumented o (serve ax x s keys max w c))
        (route_of-eq-operation_at c.request.path) (by_route (route_of c.request.path) refl)
    where
      by_route :
          (o : Option Route)
          → route_of c.request.path ≡ o
          → IsDocumented o (serve ax x s keys max w c)
      by_route none e = not_found-IsDocumented e
      by_route (some route) e =
          (resolved route, serve-IsAnswer ax x s rejecting keys max w c route e)
