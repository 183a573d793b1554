-- ===== src/Tests/Sessions.antt =====
-- Runs of src/app.rs with several requests: what was signed or sealed is sent back.
use secret_management.Prelude.{ℕ, ◌≡◌, refl, [], ◌∷◌, Bytes}
use secret_management.Std.Map.{get, insert}
use secret_management.Std.Text.{
  starts_with, strip_prefix, trim, is_whitespace, lower_char, to_ascii_lowercase, contains,
}
use secret_management.Std.Text.Case.{normalize}
use secret_management.Std.Utf8.{as_bytes}
use secret_management.Http.{ok_status}
use secret_management.Policy.{is_strategis, is_allowed, validate_primitive_compliance}
use secret_management.Auth.{
  both, allows, diff_bytes, ct_eq, find_role, role_for, provided_key, require_api_key,
}
use secret_management.RateLimit.{
  client_ip, bucket_key, entry_or_new, tick, check, rate_limit_middleware,
}
use secret_management.Services.KeyService.{get_store, rsa_key}
use secret_management.Services.CryptoService.{store_for}
use secret_management.Api.V1.{class, check_policy, check_tenant, b64d}
use secret_management.Api.V1.Sign.{is_rsa, sign_message, sign_bytes, sign_v1}
use secret_management.App.Routes.{
  route_of, post_decrypt_v1, post_sign_v1, post_verify_v1, decrypted_v1, signed_v1, handle,
}
use secret_management.App.Serve.{World, limited, protected, serve}
use secret_management.App.Steps.{here}
use secret_management.App.Admitted.{IsAdmitted, served_ok}
use secret_management.App.Sessions.{sealed_is_opened}
use secret_management.Tests.Short.{short, short-IsLawful}
use secret_management.Tests.Signing.{signing}
use secret_management.Tests.App.{
  app, axum, call, decrypt_dto, encrypt_call-IsAdmitted, encrypt_dto, first, keys, payload, sealed,
  sealed_body, signature,
}

sign_call-IsAdmitted :
    IsAdmitted axum short signing keys 100 first
      (call "Bearer key" "/v1/crypto/sign" 5)
      post_sign_v1
unfolding route_of get require_api_key provided_key strip_prefix starts_with role_for find_role
    ct_eq diff_bytes as_bytes allows check tick entry_or_new bucket_key client_ip
sign_call-IsAdmitted = record {
  role = both;
  routed = refl;
  posted = refl;
  allowed = refl;
  within = refl;
}

signed_body :
    (serve axum short signing keys 100 first (call "Bearer key" "/v1/crypto/sign" 5)).0.body
    ≡ signed_v1 signature
unfolding handle sign_v1 sign_message check_policy check_tenant b64d store_for get_store get class
    normalize trim is_whitespace lower_char to_ascii_lowercase validate_primitive_compliance
    is_strategis is_allowed sign_bytes is_rsa contains rsa_key insert
signed_body =
    (served_ok axum short signing keys 100 first (call "Bearer key" "/v1/crypto/sign" 5)
      post_sign_v1 (signed_v1 signature) sign_call-IsAdmitted refl).1

-- The process after that call.
abbrev second : World Bytes Bytes ℕ
second = (serve axum short signing keys 100 first (call "Bearer key" "/v1/crypto/sign" 5)).1

verify_call-IsAdmitted :
    IsAdmitted axum short signing keys 100 second
      (call "Bearer key" "/v1/crypto/verify" 8)
      post_verify_v1
unfolding route_of get insert require_api_key provided_key strip_prefix starts_with role_for
    find_role ct_eq diff_bytes as_bytes allows check tick entry_or_new bucket_key client_ip serve
    protected limited rate_limit_middleware
verify_call-IsAdmitted = record {
  role = both;
  routed = refl;
  posted = refl;
  allowed = refl;
  within = refl;
}

abbrev third : World Bytes Bytes ℕ
third = (serve axum short signing keys 100 first (call "Bearer key" "/v1/crypto/encrypt" 5)).1

decrypt_call-IsAdmitted :
    IsAdmitted axum short signing keys 100 third
      (call "Bearer key" "/v1/crypto/decrypt" 8)
      post_decrypt_v1
unfolding route_of get insert require_api_key provided_key strip_prefix starts_with role_for
    find_role ct_eq diff_bytes as_bytes allows check tick entry_or_new bucket_key client_ip serve
    protected limited rate_limit_middleware
decrypt_call-IsAdmitted = record {
  role = both;
  routed = refl;
  posted = refl;
  allowed = refl;
  within = refl;
}

same_store : store_for app.key_service "inn" ≡ store_for app.key_service "shop"
unfolding store_for get_store get
same_store = refl

sealed_is_opened_example :
    ((serve axum short signing keys 100 third (call "Bearer key" "/v1/crypto/decrypt" 8)).0.status
      ≡ ok_status)
    × ((serve axum short signing keys 100 third (call "Bearer key" "/v1/crypto/decrypt" 8)).0.body
        ≡ decrypted_v1 (record { payload_b64 = short.b64_encode payload }))
sealed_is_opened_example =
    sealed_is_opened axum short signing keys 100 short-IsLawful first third
      (call "Bearer key" "/v1/crypto/encrypt" 5) (call "Bearer key" "/v1/crypto/decrypt" 8)
      encrypt_dto decrypt_dto sealed.0 payload (0 ∷ []) encrypt_call-IsAdmitted refl refl
      sealed_body here decrypt_call-IsAdmitted refl same_store refl refl
