-- ===== src/App/Refused.antt =====
-- What a refusal by the layers of src/app.rs leaves as it was, and the headers of answers.
use secret_management.Prelude.{
  true, All, subst, ℕ, String, ◌≡◌, refl, sym, ap, ◌∙◌, ◌⊎◌, inl, inr, none, some, ok, err, err_inj,
}
use secret_management.Std.Map.{get}
use secret_management.Http.{Response, StatusCode, too_many_requests}
use secret_management.Crates.{Crates, SigningCrates}
use secret_management.Auth.{Role, ApiKeyStore, provided_key, allows, require_api_key}
use secret_management.Auth.Access.{require_api_key_iff, Refusal, require_api_key-Refusal}
use secret_management.Headers.{security_headers}
use secret_management.Headers.Table.{fixed_headers, get-security_headers}
use secret_management.App.Routes.{route_of, Body, Axum, refusal}
use secret_management.App.Serve.{Call, World, endpoint, serve}
use secret_management.App.Answers.{serve-Served, unauthorised, over_limit, admitted}

-- The headers of the table are there with their values, and no "server".
abbrev pub IsHardened : Response Body → Type 0
IsHardened res =
    All (λ (p : String × String). get p.0 res.headers ≡ some p.1) fixed_headers
    × (get "server" res.headers ≡ none)

pub security_headers-IsHardened : (res : Response Body) → IsHardened (security_headers res)
unfolding get
security_headers-IsHardened res =
    let at = λ (n : String). (get-security_headers res n).0 in
    (
      (
        at "permissions-policy",
        (
          at "cache-control",
          (
            at "referrer-policy",
            (
              at "content-security-policy",
              (
                at "strict-transport-security",
                (at "x-frame-options", (at "x-content-type-options", tt)),
              ),
            ),
          ),
        ),
      ),
      at "server",
    )

module _ {B C D K R : Type 0} (ax : Axum B) (x : Crates C D) (s : SigningCrates K R)
    (keys : ApiKeyStore) (max : ℕ) where
  module _ (w : World C K R) (c : Call B) where
    -- A request that the check of the API key refuses, on a route or not, changes nothing: no handler
    -- runs, no draw is made, and the rate limit does not count it. The answer is the bare status of the
    -- refusal, which tells its reason.
    pub unauthorised_changes_nothing :
        (status : StatusCode)
        → require_api_key keys c.request ok ≡ err status
        → (serve ax x s keys max w c ≡ (refusal ax status, w)) × Refusal keys c.request status
    unauthorised_changes_nothing status e = (
      elim (serve-Served ax x s keys max w c) [
        | unauthorised code p q ↦
            q ∙ ap (λ (n : StatusCode). (refusal ax n, w)) (err_inj (sym p ∙ e))
        | over_limit role q r t ↦ cc (e, q)
        | admitted role q r t ↦ cc (e, q)
      ],
      require_api_key-Refusal keys c.request status e,
    )

    -- Every answer of the layers, also to a path that is no route, has no body and the status by which the check of
    -- the key or the rate limit refuses, or it has the security headers and the request presented a
    -- key whose role allows the path.
    pub serve-IsHardened :
        ((status : StatusCode) × (Refusal keys c.request status ⊎ (status ≡ too_many_requests))
          × ((serve ax x s keys max w c).0 ≡ refusal ax status))
        ⊎ (IsHardened (serve ax x s keys max w c).0
            × ((role : Role) × (get (provided_key c.request) keys.keys ≡ some role)
                × (allows role c.request.path ≡ true)))
    serve-IsHardened = elim (serve-Served ax x s keys max w c) [
      | unauthorised status p q ↦ inl (
        status,
        inl (require_api_key-Refusal keys c.request status p),
        ap (λ (r : Response Body × World C K R). r.0) q,
      )
      | over_limit role q r t ↦
          inl (too_many_requests, inr refl, ap (λ (r : Response Body × World C K R). r.0) t)
      | admitted role q r t ↦ inr (
        subst IsHardened (ap (λ (r : Response Body × World C K R). r.0) (sym t))
            (security_headers-IsHardened (endpoint ax x s (route_of c.request.path) w c).0),
        (let (known, allowed) = (require_api_key_iff keys c.request role).0 q in
            (role, known, allowed)),
      )
    ]
