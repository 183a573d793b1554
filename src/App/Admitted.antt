-- ===== src/App/Admitted.antt =====
-- What the routes of src/app.rs do with a request that the layers let through.
use secret_management.Prelude.{
  ℕ, String, ◌≡◌, ◌≢◌, refl, sym, ap, ◌∙◌, true, ◌==◌, some, Result, ok, err,
}
use secret_management.Http.{Response, ok_status}
use secret_management.Crates.{Crates, SigningCrates}
use secret_management.Auth.{Role, ApiKeyStore, require_api_key}
use secret_management.RateLimit.{bucket_key, check}
use secret_management.Api.Models.{Failure}
use secret_management.App.{AppState}
use secret_management.App.Routes.{Route, route_of, Body, failed, Axum, handle, into_response}
use secret_management.Headers.{security_headers}
use secret_management.App.Serve.{Call, World, responded, post, serve}
use secret_management.App.Answers.{serve_admitted}

module _ {B C D K R : Type 0} (ax : Axum B) (x : Crates C D) (s : SigningCrates K R)
    (keys : ApiKeyStore) (max : ℕ) where
  -- A POST to a route that the check of the key and the rate limit let through.
  pub record IsAdmitted (w : World C K R) (c : Call B) (route : Route) : Type 0 where
    pub role : Role
    pub routed : route_of c.request.path ≡ some route
    pub posted : (c.method == "POST") ≡ true
    pub allowed : require_api_key keys c.request ok ≡ ok role
    pub within : (check max w.clients (bucket_key c.request) c.opened c.now).0 ≡ ok tt

  pub into_response-eq-ok :
      (r : Result Failure Body) (b : Body)
      → ((text : String) → failed text ≢ b)
      → (into_response ax r).body ≡ b
      → r ≡ ok b
  unfolding into_response
  into_response-eq-ok (ok a) b h e = ap ok e
  into_response-eq-ok (err (status, text)) b h e = absurd (h text e)

  -- What the answer is, and what the state is then.
  pub record Handles (w : World C K R) (c : Call B) (route : Route) : Type 0 where
    pub status :
        (serve ax x s keys max w c).0.status
        ≡ (into_response ax (handle ax x s route w.app c.content w.draws).0).status
    pub body :
        (serve ax x s keys max w c).0.body
        ≡ (into_response ax (handle ax x s route w.app c.content w.draws).0).body
    pub app : (serve ax x s keys max w c).1.app ≡ (handle ax x s route w.app c.content w.draws).1

  pub serve-Handles :
      (w : World C K R) (c : Call B) (route : Route) → IsAdmitted w c route → Handles w c route
  unfolding security_headers
  serve-Handles w c route a =
      let e = serve_admitted ax x s keys max w c route a.role a.routed a.allowed a.within in
      let p : post ax x s route w c
          ≡ responded ax x s (handle ax x s route w.app c.content w.draws) =
        rw a.posted refl in
      record {
        status =
            ap (λ (r : Response Body × World C K R). r.0.status) e
            ∙ ap (λ (r : Response Body × AppState C K R × ℕ). r.0.status) p;
        body =
            ap (λ (r : Response Body × World C K R). r.0.body) e
            ∙ ap (λ (r : Response Body × AppState C K R × ℕ). r.0.body) p;
        app =
            ap (λ (r : Response Body × World C K R). r.1.app) e
            ∙ ap (λ (r : Response Body × AppState C K R × ℕ). r.1) p;
      }

  -- The answer to an admitted request, where the handler succeeds.
  pub served_ok :
      (w : World C K R) (c : Call B) (route : Route) (b : Body)
      → IsAdmitted w c route
      → (handle ax x s route w.app c.content w.draws).0 ≡ ok b
      → ((serve ax x s keys max w c).0.status ≡ ok_status)
        × ((serve ax x s keys max w c).0.body ≡ b)
  unfolding into_response
  served_ok w c route b a e =
      let h = serve-Handles w c route a in
      (
        h.status ∙ ap (λ (r : Result Failure Body). (into_response ax r).status) e,
        h.body ∙ ap (λ (r : Result Failure Body). (into_response ax r).body) e,
      )

  -- The result of the handler, from an answer that is no error.
  pub result_of :
      (w : World C K R) (c : Call B) (route : Route) (b : Body)
      → IsAdmitted w c route
      → ((text : String) → failed text ≢ b)
      → (serve ax x s keys max w c).0.body ≡ b
      → (handle ax x s route w.app c.content w.draws).0 ≡ ok b
  result_of w c route b a h e = into_response-eq-ok _ b h (sym (serve-Handles w c route a).body ∙ e)
