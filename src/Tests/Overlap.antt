-- ===== src/Tests/Overlap.antt =====
-- Runs of src/app.rs with requests that overlap.
use secret_management.Prelude.{arith, ℕ, List, ◌≡◌, refl, some, [], ◌∷◌, Bytes, true, String}
use secret_management.Std.Map.{get, insert}
use secret_management.Std.Text.{
  starts_with, strip_prefix, trim, is_whitespace, lower_char, to_ascii_lowercase, contains,
}
use secret_management.Std.Text.Case.{normalize}
use secret_management.Std.Utf8.{as_bytes}
use secret_management.Http.{Response, ok_status}
use secret_management.Headers.{security_headers}
use secret_management.Policy.{is_strategis, is_allowed, validate_primitive_compliance}
use secret_management.Auth.{
  allows, diff_bytes, ct_eq, find_role, role_for, provided_key, require_api_key,
}
use secret_management.RateLimit.{
  client_ip, bucket_key, entry_or_new, tick, check, rate_limit_middleware,
}
use secret_management.Services.KeyService.{get_store, rsa_key}
use secret_management.Services.CryptoService.{store_for}
use secret_management.Api.V1.{class, check_policy, check_tenant, b64d}
use secret_management.Api.V1.Sign.{is_rsa, sign_message, sign_bytes, sign_v1}
use secret_management.App.Routes.{
  route_of, post_sign_v1, post_verify_v1, Body, signed_v1, verified_v1, handle, into_response,
}
use secret_management.App.Serve.{Call}
use secret_management.App.Steps.{Extends}
use secret_management.App.Traffic.{reached}
use secret_management.App.Overlap.{
  Process, Turn, arrives, finishes, cleans, pick, arrive, finish, turn, run,
}
use secret_management.App.Overlap.Serial.{in_order, entered, entered-eq-reached}
use secret_management.App.Overlap.Kept.{run-Extends}
use secret_management.App.Overlap.Signed.{idle, IsWaiting, overlapping_signed_is_verified}
use secret_management.App.Overlap.Caches.{outcome, forgotten, ed25519_cache_is_transparent}
use secret_management.App.Overlap.Idle.{idle_clients_are_forgotten}
use secret_management.Tests.Short.{short, short-IsLawful}
use secret_management.Tests.Signing.{signing, signing-IsLawfulSigning}
use secret_management.Tests.App.{
  app, axum, call, environment, first, keys, sign_dto, signature, started,
}

abbrev signing_call : Call String
signing_call = call "Bearer key" "/v1/crypto/sign" 5

abbrev encrypting_call : Call String
encrypting_call = call "Bearer key" "/v1/crypto/encrypt" 6

abbrev verifying_call : Call String
verifying_call = call "Bearer key" "/v1/crypto/verify" 8

-- A request to sign and one to encrypt wait.
abbrev two_calls : List (Turn String)
two_calls = arrives signing_call ∷ arrives encrypting_call ∷ []

abbrev two_wait : Process String Bytes Bytes ℕ
two_wait = run axum short signing keys 100 two_calls (idle app 0)

sign_waits : IsWaiting axum short signing keys 100 two_wait 1 post_sign_v1 signing_call
unfolding run turn arrive pick route_of get insert require_api_key provided_key strip_prefix
    starts_with role_for find_role ct_eq diff_bytes as_bytes allows check tick entry_or_new
    bucket_key client_ip rate_limit_middleware
sign_waits = record { others = _; found = refl; posted = refl }

abbrev signed : Response Body
signed = security_headers (into_response axum (handle axum short signing post_sign_v1 app "{}" 0).0)

signed_answer : (finish axum short signing keys 100 1 two_wait).0 ≡ some signed
unfolding run turn arrive pick route_of get insert require_api_key provided_key strip_prefix
    starts_with role_for find_role ct_eq diff_bytes as_bytes allows check tick entry_or_new
    bucket_key client_ip rate_limit_middleware finish
signed_answer = refl

signed_body : signed.body ≡ signed_v1 signature
unfolding handle sign_v1 sign_message check_policy check_tenant b64d store_for get_store get class
    normalize trim is_whitespace lower_char to_ascii_lowercase validate_primitive_compliance
    is_strategis is_allowed sign_bytes is_rsa contains rsa_key insert into_response security_headers
signed_body = refl

-- The signature is made, and a request to verify it comes; the one to encrypt waits still.
abbrev verify_waits : Process String Bytes Bytes ℕ
verify_waits =
    run axum short signing keys 100 (arrives verifying_call ∷ cleans 9 ∷ [])
      (finish axum short signing keys 100 1 two_wait).1

verify_call_waits :
    IsWaiting axum short signing keys 100 verify_waits 0 post_verify_v1 verifying_call
unfolding run turn arrive pick route_of get insert require_api_key provided_key strip_prefix
    starts_with role_for find_role ct_eq diff_bytes as_bytes allows check tick entry_or_new
    bucket_key client_ip rate_limit_middleware finish
verify_call_waits = record { others = _; found = refl; posted = refl }

overlapping_signed_is_verified_example :
    (answer : Response Body) × ((finish axum short signing keys 100 0 verify_waits).0 ≡ some answer)
    × (answer.status ≡ ok_status)
    × (answer.body ≡ verified_v1 (record { valid = true }))
overlapping_signed_is_verified_example =
    overlapping_signed_is_verified axum short signing keys 100 short-IsLawful
      signing-IsLawfulSigning environment app 0 two_calls (arrives verifying_call ∷ cleans 9 ∷ [])
      two_wait verify_waits 1 0 signing_call verifying_call sign_dto signed signature started refl
      sign_waits refl signed_answer signed_body refl verify_call_waits refl

run-Extends_example :
    Extends signing two_wait.world
      (run axum short signing keys 100 (finishes 1 ∷ cleans 9 ∷ []) two_wait).world
run-Extends_example = run-Extends axum short signing keys 100 (finishes 1 ∷ cleans 9 ∷ []) two_wait

entered-eq-reached_example :
    entered axum short signing keys 1 "::1:key"
      (arrives signing_call ∷ finishes 0 ∷ arrives encrypting_call ∷ [])
      (idle app 0)
    ≡ reached axum short signing keys 1 "::1:key" first
        (in_order (arrives signing_call ∷ finishes 0 ∷ arrives encrypting_call ∷ []))
entered-eq-reached_example =
    entered-eq-reached axum short signing keys 1 "::1:key"
      (arrives signing_call ∷ finishes 0 ∷ arrives encrypting_call ∷ []) (idle app 0) first refl

-- Two requests overlap, and the signature of the first is made before a third comes.
abbrev session : List (Turn String)
session =
    arrives signing_call
    ∷ arrives encrypting_call
    ∷ finishes 1
    ∷ arrives verifying_call
    ∷ cleans 9
    ∷ []

ed25519_cache_is_transparent_example :
    outcome (
      handle axum short signing post_verify_v1
        (run axum short signing keys 100 session (idle app 0)).world.app
        "{}"
        7)
    ≡ outcome (
        handle axum short signing post_verify_v1
          (forgotten (run axum short signing keys 100 session (idle app 0)).world.app)
          "{}"
          7)
ed25519_cache_is_transparent_example =
    ed25519_cache_is_transparent axum short signing keys 100 environment app 0 session
      post_verify_v1 "{}" 7 started

idle_clients_are_forgotten_example :
    (turn axum short signing keys 100
      (cleans 120000000008)
      (run axum short signing keys 100 session (idle app 0))).1.world.clients
    ≡ []
idle_clients_are_forgotten_example =
    idle_clients_are_forgotten axum short signing keys 100 8 session (idle app 0) 120000000008 tt
      (
        (omega arith, omega arith),
        ((omega arith, omega arith), (tt, ((omega arith, omega arith), (tt, tt)))),
      )
      (omega arith)
