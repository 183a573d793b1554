-- ===== src/Tests/Envelopes.antt =====
-- Runs of src/app.rs with the routes /encrypt and /decrypt.
use secret_management.Prelude.{ℕ, ◌≡◌, refl, ok, arith, String, Bytes}
use secret_management.Std.Map.{get, insert}
use secret_management.Std.Text.{starts_with, strip_prefix}
use secret_management.Std.Utf8.{as_bytes}
use secret_management.Http.{ok_status}
use secret_management.Auth.{
  both, allows, diff_bytes, ct_eq, find_role, role_for, provided_key, require_api_key,
}
use secret_management.RateLimit.{
  client_ip, bucket_key, entry_or_new, tick, check, rate_limit_middleware,
}
use secret_management.Api.Models.{EncryptRequest, EncryptResponse}
use secret_management.Api.Handlers.{encrypt_handler}
use secret_management.Api.Limits.{Accepts}
use secret_management.Api.RoundTrip.{request_of, encrypt_handler_total}
use secret_management.App.Routes.{
  route_of, post_encrypt, post_decrypt, encrypted, decrypted, Axum, handle,
}
use secret_management.App.Serve.{World, limited, protected, serve}
use secret_management.App.Steps.{here}
use secret_management.App.Admitted.{IsAdmitted, served_ok}
use secret_management.App.Envelopes.{encrypted_is_decrypted}
use secret_management.Tests.Short.{full, full-IsLawful, full-IsSized}
use secret_management.Tests.Toy.Base64.{digit_of}
use secret_management.Tests.Signing.{signing}
use secret_management.Tests.App.{axum, call, first, keys, parsed, payload, store}

abbrev request : EncryptRequest
request = record { payload_b64 = "AwE=" }

request_accepted : Accepts full request payload
unfolding digit_of
request_accepted = ((omega arith, omega arith), refl, omega arith, omega arith)

answered : (resp : EncryptResponse) × (encrypt_handler full store request 0 ≡ (ok resp, 3))
answered =
    encrypt_handler_total full full-IsLawful store request payload 0 refl (omega arith)
      request_accepted

abbrev router : Axum String
router = record axum {
  json_encrypt = parsed request;
  json_decrypt = parsed (request_of answered.0);
}

encrypting_call-IsAdmitted :
    IsAdmitted router full signing keys 100 first (call "Bearer key" "/encrypt" 5) post_encrypt
unfolding route_of get require_api_key provided_key strip_prefix starts_with role_for find_role
    ct_eq diff_bytes as_bytes allows check tick entry_or_new bucket_key client_ip
encrypting_call-IsAdmitted = record {
  role = both;
  routed = refl;
  posted = refl;
  allowed = refl;
  within = refl;
}

encrypted_body :
    (serve router full signing keys 100 first (call "Bearer key" "/encrypt" 5)).0.body
    ≡ encrypted answered.0
unfolding handle
encrypted_body =
    (served_ok router full signing keys 100 first (call "Bearer key" "/encrypt" 5) post_encrypt
      (encrypted answered.0) encrypting_call-IsAdmitted (rw answered.1 refl)).1

-- The process after that call.
abbrev second : World Bytes Bytes ℕ
second = (serve router full signing keys 100 first (call "Bearer key" "/encrypt" 5)).1

decrypting_call-IsAdmitted :
    IsAdmitted router full signing keys 100 second (call "Bearer key" "/decrypt" 8) post_decrypt
unfolding route_of get insert require_api_key provided_key strip_prefix starts_with role_for
    find_role ct_eq diff_bytes as_bytes allows check tick entry_or_new bucket_key client_ip serve
    protected limited rate_limit_middleware
decrypting_call-IsAdmitted = record {
  role = both;
  routed = refl;
  posted = refl;
  allowed = refl;
  within = refl;
}

encrypted_is_decrypted_example :
    (m : Bytes) × Accepts full request m
    × ((serve router full signing keys 100 second (call "Bearer key" "/decrypt" 8)).0.status
        ≡ ok_status)
    × ((serve router full signing keys 100 second (call "Bearer key" "/decrypt" 8)).0.body
        ≡ decrypted (record { payload_b64 = full.b64_encode m }))
encrypted_is_decrypted_example =
    encrypted_is_decrypted router full signing keys 100 full-IsLawful full-IsSized first second
      (call "Bearer key" "/encrypt" 5) (call "Bearer key" "/decrypt" 8) request answered.0
      encrypting_call-IsAdmitted refl encrypted_body here decrypting_call-IsAdmitted refl
