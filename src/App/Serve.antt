-- ===== src/App/Serve.antt =====
-- The layers of src/app.rs around a handler. The layer that is added last runs first: the API key,
-- the rate limit, the headers.
use secret_management.Prelude.{ℕ, String, ◌==◌, Option, none, some, Result, ok, err, if◌then◌else◌}
use secret_management.Std.Map.{HashMap}
use secret_management.Http.{Request, StatusCode, Response}
use secret_management.Crates.{Crates, SigningCrates}
use secret_management.Auth.{ApiKeyStore, require_api_key}
use secret_management.RateLimit.{ClientTracker, rate_limit_middleware}
use secret_management.Headers.{security_headers}
use secret_management.App.{AppState}
use secret_management.App.Routes.{
  Route, route_of, Body, Axum, Handled, handle, into_response, refusal,
}

-- A request: what the layers see, its method and body, and the two readings of the clock at the
-- rate limit.
pub record Call (B : Type 0) : Type 0 where
  pub request : Request
  pub method : String
  pub content : B
  pub opened : ℕ
  pub now : ℕ

-- The state of the process: the shared state, the draws of `OsRng`, and the clients of `LIMITER`.
pub record World (C K R : Type 0) : Type 0 where
  pub app : AppState C K R
  pub draws : ℕ
  pub clients : HashMap ClientTracker

module _ {B C D K R : Type 0} (ax : Axum B) (x : Crates C D) (s : SigningCrates K R) where
  abbrev pub responded : Handled C K R → Response Body × AppState C K R × ℕ
  responded (r, app, i) = (into_response ax r, app, i)

  -- `post(handler)`
  abbrev pub post : Route → World C K R → Call B → Response Body × AppState C K R × ℕ
  post route w c =
      if c.method == "POST"
      then responded (handle ax x s route w.app c.content w.draws)
      else (ax.method_not_allowed, w.app, w.draws)

  -- The handler of a path; where it is no route, the fallback of the router, which the layers wrap as
  -- well, since the code adds them by `layer` and not by `route_layer`.
  abbrev pub endpoint : Option Route → World C K R → Call B → Response Body × AppState C K R × ℕ
  endpoint none w c = (ax.not_found, w.app, w.draws)
  endpoint (some route) w c = post route w c

  abbrev pub hardened : Response Body × AppState C K R × ℕ → Response Body × AppState C K R × ℕ
  hardened (res, app, i) = (security_headers res, app, i)

  -- what the limit `max` lets through, or its refusal
  abbrev pub limited_answer :
      World C K R
      → Result StatusCode (Response Body × AppState C K R × ℕ) × HashMap ClientTracker
      → Response Body × World C K R
  limited_answer w (ok (res, app, i), clients) =
      (res, record { app = app; draws = i; clients = clients })
  limited_answer w (err status, clients) = (refusal ax status, record w { clients = clients })

  unfoldable pub limited : ℕ → Option Route → World C K R → Call B → Response Body × World C K R
  limited max target w c = limited_answer w (
      rate_limit_middleware max w.clients c.opened c.now c.request
        λ req. ok (hardened (endpoint target w c)))

  abbrev pub checked_answer :
      World C K R → Result StatusCode (Response Body × World C K R) → Response Body × World C K R
  checked_answer w (ok answer) = answer
  checked_answer w (err status) = (refusal ax status, w)

  unfoldable pub protected :
      ApiKeyStore → ℕ → Option Route → World C K R → Call B → Response Body × World C K R
  protected keys max target w c =
      checked_answer w (require_api_key keys c.request λ role. ok (limited max target w c))

  -- The router, with the API keys and the limit. `CorsLayer`, outside of it, answers OPTIONS itself
  -- and adds its own headers.
  unfoldable pub serve : ApiKeyStore → ℕ → World C K R → Call B → Response Body × World C K R
  serve keys max w c = protected keys max (route_of c.request.path) w c
