-- ===== src/Http.antt =====
-- What the handlers and the middleware see of axum's requests, and the status codes they answer.
use secret_management.Prelude.{ℕ, String, Option}
use secret_management.Std.Map.{HashMap}

abbrev pub StatusCode : Type 0
StatusCode = ℕ

abbrev pub ok_status : StatusCode
ok_status = 200

abbrev pub bad_request : StatusCode
bad_request = 400

abbrev pub unauthorized : StatusCode
unauthorized = 401

abbrev pub forbidden : StatusCode
forbidden = 403

abbrev pub payload_too_large : StatusCode
payload_too_large = 413

abbrev pub too_many_requests : StatusCode
too_many_requests = 429

abbrev pub internal_server_error : StatusCode
internal_server_error = 500

-- A header is what `headers().get(name).and_then(|v| v.to_str().ok())` gives; `peer` is the
-- address, as text, of the `SocketAddr` among the extensions; `path` is `uri().path()`.
pub record Request : Type 0 where
  pub authorization : Option String
  pub forwarded_for : Option String
  pub peer : Option String
  pub path : String

-- The names of headers are in lower case; `insert` puts one value in place of all of a name.
abbrev pub HeaderMap : Type 0
HeaderMap = HashMap String

-- An answer with a body of type `B`.
pub record Response (B : Type 0) : Type 0 where
  pub status : StatusCode
  pub headers : HeaderMap
  pub body : B
