-- ===== src/App/Answers.antt =====
-- The ways in which the layers of src/app.rs answer a request.
use secret_management.Prelude.{
  arith, ℕ, String, ◌≡◌, refl, ◌∙◌, inl, inr, Option, some, Result, ok, err, ap, Result-cases,
}
use secret_management.Std.Map.{HashMap}
use secret_management.Http.{StatusCode, too_many_requests}
use secret_management.Crates.{Crates, SigningCrates}
use secret_management.Auth.{Role, ApiKeyStore, require_api_key}
use secret_management.Auth.Access.{require_api_key-bind}
use secret_management.RateLimit.{ClientTracker, bucket_key, check, rate_limit_middleware}
use secret_management.Headers.{security_headers}
use secret_management.App.Routes.{Route, route_of, Axum, refusal}
use secret_management.App.Serve.{Call, World, post, endpoint, limited, protected, serve}

check-too_many :
    (max : ℕ) (clients : HashMap ClientTracker) (k : String) (opened now : ℕ) (status : StatusCode)
    → (check max clients k opened now).0 ≡ err status
    → (check max clients k opened now).0 ≡ err too_many_requests
unfolding check
check-too_many max clients k opened now status e = ground arith

module _ {B C D K R : Type 0} (ax : Axum B) (x : Crates C D) (s : SigningCrates K R)
    (keys : ApiKeyStore) (max : ℕ) where
  module _ (w : World C K R) (c : Call B) where
    abbrev pub counted : Result StatusCode (Unit {0}) × HashMap ClientTracker
    counted = check max w.clients (bucket_key c.request) c.opened c.now

    abbrev target : Option Route
    target = route_of c.request.path

    -- The state after a request that the layers let through.
    abbrev pub reached_world : World C K R
    reached_world = record {
      app = (endpoint ax x s target w c).1;
      draws = (endpoint ax x s target w c).2;
      clients = counted.1;
    }

    -- The ways in which a request is answered.
    pub data Served : Type 0 where
      unauthorised :
          (status : StatusCode)
          → require_api_key keys c.request ok ≡ err status
          → serve ax x s keys max w c ≡ (refusal ax status, w)
          → Served
      over_limit :
          (role : Role)
          → require_api_key keys c.request ok ≡ ok role
          → counted.0 ≡ err too_many_requests
          → serve ax x s keys max w c
            ≡ (refusal ax too_many_requests, record w { clients = counted.1 })
          → Served
      admitted :
          (role : Role)
          → require_api_key keys c.request ok ≡ ok role
          → counted.0 ≡ ok tt
          → serve ax x s keys max w c
            ≡ (security_headers (endpoint ax x s target w c).0, reached_world)
          → Served

    limited_lem :
        (role : Role)
        → require_api_key keys c.request ok ≡ ok role
        → serve ax x s keys max w c ≡ limited ax x s max target w c
    unfolding serve protected
    limited_lem role q =
        rw
          (
            serve,
            protected,
            require_api_key-bind keys c.request (λ r. ok (limited ax x s max target w c)),
            q,
          )
          refl

    unauthorised_lem :
        (status : StatusCode)
        → require_api_key keys c.request ok ≡ err status
        → serve ax x s keys max w c ≡ (refusal ax status, w)
    unfolding serve protected
    unauthorised_lem status q =
        rw
          (
            serve,
            protected,
            require_api_key-bind keys c.request (λ r. ok (limited ax x s max target w c)),
            q,
          )
          refl

    over_limit_lem :
        counted.0 ≡ err too_many_requests
        → limited ax x s max target w c
          ≡ (refusal ax too_many_requests, record w { clients = counted.1 })
    unfolding limited rate_limit_middleware
    over_limit_lem r = rw (r, limited, rate_limit_middleware) refl

    admitted_lem :
        counted.0 ≡ ok tt
        → limited ax x s max target w c
          ≡ (security_headers (endpoint ax x s target w c).0, reached_world)
    unfolding limited rate_limit_middleware
    admitted_lem r = rw (r, limited, rate_limit_middleware) refl

    over : (status : StatusCode) → counted.0 ≡ err status → counted.0 ≡ err too_many_requests
    over = check-too_many max w.clients (bucket_key c.request) c.opened c.now

    pub serve_admitted :
        (route : Route) (role : Role)
        → route_of c.request.path ≡ some route
        → require_api_key keys c.request ok ≡ ok role
        → counted.0 ≡ ok tt
        → serve ax x s keys max w c ≡ (
          security_headers (post ax x s route w c).0,
          record {
            app = (post ax x s route w c).1;
            draws = (post ax x s route w c).2;
            clients = counted.1;
          },
        )
    serve_admitted route role p q r =
        limited_lem role q
        ∙ admitted_lem r
        ∙ ap
            (λ (t : Option Route). (
              security_headers (endpoint ax x s t w c).0,
              record {
                app = (endpoint ax x s t w c).1;
                draws = (endpoint ax x s t w c).2;
                clients = counted.1;
              },
            ))
            p

    pub serve-Served : Served
    serve-Served = elim (Result-cases (require_api_key keys c.request ok)) [
      | inr (status, q) ↦ unauthorised status q (unauthorised_lem status q)
      | inl (role, q) ↦ elim (Result-cases counted.0) [
        | inl (_, r) ↦ admitted role q r (limited_lem role q ∙ admitted_lem r)
        | inr (status, r) ↦
            over_limit role q (over status r) (limited_lem role q ∙ over_limit_lem (over status r))
      ]
    ]
