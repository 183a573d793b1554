-- ===== src/Tests/Traffic.antt =====
-- A run of src/app.rs with the requests of a client in one window.
use Prim.Native.Nat.{min}
use secret_management.Prelude.{List, String, ◌≡◌, refl, [], ◌∷◌, arith, true}
use secret_management.Std.Map.{get}
use secret_management.Std.Text.{starts_with, strip_prefix}
use secret_management.Std.Utf8.{as_bytes}
use secret_management.Auth.{
  allows, diff_bytes, ct_eq, find_role, role_for, provided_key, require_api_key,
}
use secret_management.RateLimit.{bucket_key}
use secret_management.App.Routes.{route_of}
use secret_management.App.Serve.{Call}
use secret_management.RateLimit.Window.{hit, round, asked}
use secret_management.App.Traffic.{Moment, called, cleaned, is_authorised, hit_of, events_of}
use secret_management.App.Overlap.{Turn, arrives, finishes, cleans}
use secret_management.App.Overlap.Serial.{in_order, entered}
use secret_management.App.Overlap.Signed.{idle}
use secret_management.App.Overlap.Limits.{entered_within}
use secret_management.Tests.Short.{short}
use secret_management.Tests.Signing.{signing}
use secret_management.Tests.App.{app, axum, call, keys}

-- Two requests with a key and one without, and a round of the background task.
abbrev traffic : List (Moment String)
traffic =
    cleaned 6
    ∷ called (call "Bearer nokey" "/v1/crypto/sign" 7)
    ∷ called (call "Bearer key" "/v1/crypto/verify" 8)
    ∷ []

abbrev first_call : Call String
first_call = call "Bearer key" "/v1/crypto/sign" 5

seen : events_of keys (called first_call ∷ traffic) ≡ (
    hit (hit_of keys first_call)
    ∷ round 6
    ∷ hit (hit_of keys (call "Bearer key" "/v1/crypto/verify" 8))
    ∷ [])
unfolding events_of is_authorised route_of get require_api_key provided_key strip_prefix starts_with
    role_for find_role ct_eq diff_bytes as_bytes allows
seen = refl

first_call-is_authorised : is_authorised keys first_call ≡ true
unfolding is_authorised route_of get require_api_key provided_key strip_prefix starts_with role_for
    find_role ct_eq diff_bytes as_bytes allows
first_call-is_authorised = refl

-- The same requests, where the handler of the first runs at the end.
abbrev overlapping : List (Turn String)
overlapping =
    cleans 6
    ∷ arrives (call "Bearer nokey" "/v1/crypto/sign" 7)
    ∷ arrives (call "Bearer key" "/v1/crypto/verify" 8)
    ∷ finishes 0
    ∷ []

entered_within_example :
    entered axum short signing keys 1
      (bucket_key first_call.request)
      (arrives first_call ∷ overlapping)
      (idle app 0)
    ≡ min 1 (
        asked
          (bucket_key first_call.request)
          (events_of keys (in_order (arrives first_call ∷ overlapping))))
unfolding events_of in_order is_authorised route_of get require_api_key provided_key strip_prefix
    starts_with role_for find_role ct_eq diff_bytes as_bytes allows
entered_within_example =
    entered_within axum short signing keys 1 (idle app 0) first_call overlapping tt refl
      first_call-is_authorised (omega arith) (omega arith, (omega arith, tt)) (omega arith)
