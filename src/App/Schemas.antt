-- ===== src/App/Schemas.antt =====
-- What the attributes `utoipa::path` of src/api promise of the answers of the routes of src/app.rs,
-- and what the process answers.
pub mod Kept
pub mod Paths
use secret_management.Prelude.{
  ℕ, eqb, String, ◌≡◌, refl, sym, ap, ◌∙◌, ◌⊎◌, inl, inr, Bool, true, false, ◌||◌, ◌==◌,
  if◌then◌else◌, Bool-cases, some, some_inj, List, [], ◌∷◌, ◌++◌, Result, ok, err, Fails, Fails-imp,
  arith, subst,
}
use secret_management.Http.{
  Response, StatusCode, ok_status, bad_request, unauthorized, forbidden, payload_too_large,
  too_many_requests, internal_server_error,
}
use secret_management.Crates.{Crates, SigningCrates}
use secret_management.Auth.{ApiKeyStore}
use secret_management.Auth.Access.{Refusal, require_api_key-Refusal}
use secret_management.Headers.{security_headers}
use secret_management.Api.Models.{Failure}
use secret_management.Api.Statuses.{encrypt_handler-Fails, decrypt_handler-Fails}
use secret_management.Api.V1.Statuses.{IsBad, IsBadOrUnsigned, v1_statuses}
use secret_management.Api.Handlers.{encrypt_handler, decrypt_handler}
use secret_management.Api.V1.{encrypt_v1, decrypt_v1}
use secret_management.Api.V1.Sign.{sign_v1, verify_v1}
use secret_management.Api.V1.Hashes.{hash_v1}
use secret_management.App.{AppState}
use secret_management.App.Routes.{
  Route, post_encrypt, post_decrypt, post_encrypt_v1, post_decrypt_v1, post_sign_v1, post_verify_v1,
  post_hash_v1, route_of, Body, encrypted, decrypted, encrypted_v1, decrypted_v1, signed_v1,
  verified_v1, hashed_v1, failed, nothing, Axum, Handled, body_of, extracted, handle, into_response,
  refusal,
}
use secret_management.App.Operations.{operation_of}
use secret_management.App.Serve.{Call, World, post, serve}
use secret_management.App.Answers.{serve-Served, unauthorised, over_limit, admitted}

-- The schema of what a body says; an error, or nothing, is none that is answered with status 200.
abbrev pub schema_name : Body → String
schema_name (encrypted _) = "EncryptResponse"
schema_name (decrypted _) = "DecryptResponse"
schema_name (encrypted_v1 _) = "EncryptV1Response"
schema_name (decrypted_v1 _) = "DecryptV1Response"
schema_name (signed_v1 _) = "SignResponse"
schema_name (verified_v1 _) = "VerifyResponse"
schema_name (hashed_v1 _) = "HashResponse"
schema_name (failed _) = ""
schema_name nothing = ""

-- There is an entry for the status, with that name.
unfoldable pub declares : StatusCode → String → List (StatusCode × String) → Bool
declares status name [] = false
declares status name ((code, schema) ∷ responses) =
    let rest = declares status name responses in if eqb status code then schema == name else rest

-- The body is the one that the attribute declares for status 200.
unfoldable pub has_schema : Route → Body → Bool
unfolding declares
has_schema route body = declares 200 (schema_name body) (operation_of route).responses

unfoldable pub is_in : StatusCode → List StatusCode → Bool
is_in status [] = false
is_in status (code ∷ codes) = eqb status code || is_in status codes

-- The statuses with which the extractor of `Json` refuses a body, by the documentation of axum.
abbrev pub rejections : List StatusCode
rejections = 400 ∷ 413 ∷ 415 ∷ 422 ∷ []

-- The statuses with which the handler of a route refuses, the extractor included.
unfoldable pub refusals : Route → List StatusCode
refusals post_encrypt = rejections ++ (500 ∷ [])
refusals post_sign_v1 = rejections ++ (500 ∷ [])
refusals _ = rejections

-- The statuses of the refusals without a body: of the check of the API key, of the router to another
-- method, and of the rate limit.
abbrev pub layer_refusals : List StatusCode
layer_refusals = 401 ∷ 403 ∷ 405 ∷ 429 ∷ 500 ∷ []

-- A refusal by the handler of a route.
abbrev pub IsRefusal : Route → Failure → Type 0
IsRefusal route f = is_in f.0 (refusals route) ≡ true

abbrev pub IsRejection : Failure → Type 0
IsRejection f = is_in f.0 rejections ≡ true

-- The extractors refuse with their documented statuses, and the router answers another method with
-- 405 and no body.
pub record IsRejecting {B : Type 0} (ax : Axum B) : Type 0 where
  pub json_encrypt : (b : B) → Fails IsRejection (ax.json_encrypt b)
  pub json_decrypt : (b : B) → Fails IsRejection (ax.json_decrypt b)
  pub json_encrypt_v1 : (b : B) → Fails IsRejection (ax.json_encrypt_v1 b)
  pub json_decrypt_v1 : (b : B) → Fails IsRejection (ax.json_decrypt_v1 b)
  pub json_sign_v1 : (b : B) → Fails IsRejection (ax.json_sign_v1 b)
  pub json_verify_v1 : (b : B) → Fails IsRejection (ax.json_verify_v1 b)
  pub json_hash_v1 : (b : B) → Fails IsRejection (ax.json_hash_v1 b)
  pub method_status : ax.method_not_allowed.status ≡ 405
  pub method_body : ax.method_not_allowed.body ≡ nothing

-- The result of the handler of a route: a body of its schema, or a refusal of its own.
abbrev pub IsResult : Route → Result Failure Body → Type 0
IsResult route (ok b) = has_schema route b ≡ true
IsResult route (err f) = IsRefusal route f

-- An answer to a request for a route: with status 200 and the body of its schema, or the refusal of
-- its handler with a text, or a refusal of the layers with no body.
abbrev pub IsAnswer : Route → Response Body → Type 0
IsAnswer route res =
    ((res.status ≡ ok_status) × (has_schema route res.body ≡ true))
    ⊎ ((is_in res.status (refusals route) ≡ true) × (text : String) × (res.body ≡ failed text))
    ⊎ ((is_in res.status layer_refusals ≡ true) × (res.body ≡ nothing))
