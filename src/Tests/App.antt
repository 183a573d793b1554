-- ===== src/Tests/App.antt =====
-- Runs of src/app.rs: one key store, one API key, and bodies that are texts.
use secret_management.Prelude.{
  ℕ, String, ◌≡◌, ◌↔◌, refl, ◌==◌, if◌then◌else◌, [], ◌∷◌, Bytes, Option, none, some, Result, ok,
  err, arith,
}
use secret_management.Std.Map.{Env, get, insert}
use secret_management.Std.Text.{
  starts_with, strip_prefix, strip_suffix, lower_char, to_ascii_lowercase,
}
use secret_management.Std.Utf8.{as_bytes}
use secret_management.Http.{Response, bad_request, unauthorized}
use secret_management.Kek.{KekStore}
use secret_management.Kek.FromEnv.{
  pair_from_hex, from_hex, old_former, scan_var, scan_vars, is_former_key,
}
use secret_management.Kek.FromEnv
use secret_management.Envelope.{EncryptedEnvelope}
use secret_management.Auth.{
  both, allows, ApiKeyStore, diff_bytes, ct_eq, find_role, role_for, provided_key, require_api_key,
}
use secret_management.RateLimit.{client_ip, bucket_key, entry_or_new, tick, check}
use secret_management.Services.KeyService.{
  KeyService, tenant_of, default_store, add_tenant, add_tenants, service_of, get_store, rsa_key,
}
use secret_management.Services.KeyService
use secret_management.Services.CryptoService.{store_for}
use secret_management.Api.Models.{Failure}
use secret_management.Api.Dto.{EncryptDto, DecryptDto, SignDto, EncryptV1Response, SignResponse}
use secret_management.Api.V1.{encrypt_v1}
use secret_management.Api.V1.RoundTrip.{envelope_of_v1, encrypt_v1_iff}
use secret_management.Api.V1.Signatures.{verify_of}
use secret_management.App.{AppState, create_app}
use secret_management.App.Start.{IsRead, create_app_iff}
use secret_management.App.Routes.{
  route_of, post_encrypt_v1, Body, encrypted_v1, nothing, Axum, handle,
}
use secret_management.App.Serve.{Call, World, serve}
use secret_management.App.Admitted.{IsAdmitted, served_ok}
use secret_management.App.Sessions.{start}
use secret_management.Tests.Toy.{key_a, hex_a}
use secret_management.Tests.Short.{short, short-IsLawful}
use secret_management.Tests.Signing.{signing}

abbrev pub environment : Env
environment = ("APP_KEK", hex_a) ∷ []

abbrev pub store : KekStore Bytes
store = record {
  current_id = "primary";
  current = key_a;
  current_raw = key_a;
  previous = [];
  previous_raw = [];
}

abbrev pub app : AppState Bytes Bytes ℕ
app = record {
  kek_store = store;
  key_service = record { stores = ("default", store) ∷ []; ed25519_cache = []; rsa_cache = [] };
}

pub started : create_app short environment ≡ ok app
unfolding create_app KeyService.from_env default_store add_tenants add_tenant tenant_of strip_prefix
    strip_suffix from_hex pair_from_hex FromEnv.from_env get insert old_former scan_vars scan_var
    is_former_key starts_with to_ascii_lowercase lower_char service_of
started = refl

create_app_iff_example :
    ((create_app short environment ≡ ok app) ↔ IsRead short environment app)
    × (create_app short environment ≡ ok app
        → get_store app.key_service "default" ≡ some app.kek_store)
create_app_iff_example = create_app_iff short environment app

abbrev plain : Response Body
plain = record {
  status = 200;
  headers = ("server", "axum") ∷ ("cache-control", "public") ∷ ("age", "1") ∷ [];
  body = nothing;
}

abbrev pub payload : Bytes
payload = 3 ∷ 1 ∷ []

abbrev pub sign_dto : SignDto
sign_dto = record {
  policy = "RSA-PSS";
  tenant_id = "shop";
  purpose = "pay";
  content = "111010";
  classification = "tinggi";
}

abbrev pub signature : SignResponse
signature = record {
  signature_b64 = short.b64_encode (0 ∷ 1 ∷ []);
  key_id = "primary";
  algorithm = "RSA-PSS";
}

abbrev pub encrypt_dto : EncryptDto
encrypt_dto = record {
  policy = "aes";
  tenant_id = "shop";
  purpose = "pay";
  content = "111010";
  classification = "tinggi";
}

abbrev pub decrypt_dto : DecryptDto
decrypt_dto = record {
  policy = "aes";
  tenant_id = "inn";
  purpose = "pay";
  content = "0";
  classification = "tinggi";
}

-- The store of "shop", and what is answered to `encrypt_dto`.
store_found : store_for app.key_service "shop" ≡ some store
unfolding store_for get_store get
store_found = refl

pub sealed :
    (resp : EncryptV1Response) × (encrypt_v1 short app.key_service encrypt_dto 0 ≡ (ok resp, 3))
sealed =
    (encrypt_v1_iff short app.key_service short-IsLawful encrypt_dto 0 store store_found refl
        (omega arith, omega arith, omega arith)).1
      (payload, (refl, omega arith, omega arith))

-- A body is read as `a`, if it is not empty.
abbrev pub parsed : {A : Type 0} → A → String → Result Failure A
parsed a b = if b == "" then err (bad_request, "EOF") else ok a

abbrev parse : Bytes → Option EncryptedEnvelope
parse [] = none
parse (b ∷ bs) = some (envelope_of_v1 sealed.0)

abbrev pub axum : Axum String
axum = record {
  json_encrypt = parsed (record { payload_b64 = "111010" });
  json_decrypt = λ b. err (bad_request, "EOF");
  json_encrypt_v1 = parsed encrypt_dto;
  json_decrypt_v1 = parsed decrypt_dto;
  json_sign_v1 = parsed sign_dto;
  json_verify_v1 = parsed (verify_of sign_dto signature);
  json_hash_v1 = λ b. err (bad_request, "EOF");
  from_slice = parse;
  headers = λ status body. ("content-type", "application/json") ∷ [];
  not_found = record { status = 404; headers = []; body = nothing };
  method_not_allowed = record { status = 405; headers = []; body = nothing };
}

abbrev pub keys : ApiKeyStore
keys = record { keys = ("key", both) ∷ [] }

-- A POST of "{}", with a key, at an instant.
abbrev pub call : String → String → ℕ → Call String
call key path now = record {
  request = record {
    authorization = some key;
    forwarded_for = none;
    peer = some "::1";
    path = path;
  };
  method = "POST";
  content = "{}";
  opened = now;
  now = now;
}

abbrev pub first : World Bytes Bytes ℕ
first = start app 0

pub refused : require_api_key keys (call "Bearer nokey" "/encrypt" 5).request ok ≡ err unauthorized
unfolding require_api_key provided_key strip_prefix starts_with role_for find_role ct_eq diff_bytes
    as_bytes
refused = refl

pub encrypt_call-IsAdmitted :
    IsAdmitted axum short signing keys 100 first
      (call "Bearer key" "/v1/crypto/encrypt" 5)
      post_encrypt_v1
unfolding route_of get require_api_key provided_key strip_prefix starts_with role_for find_role
    ct_eq diff_bytes as_bytes allows check tick entry_or_new bucket_key client_ip
encrypt_call-IsAdmitted = record {
  role = both;
  routed = refl;
  posted = refl;
  allowed = refl;
  within = refl;
}

pub sealed_body :
    (serve axum short signing keys 100 first (call "Bearer key" "/v1/crypto/encrypt" 5)).0.body
    ≡ encrypted_v1 sealed.0
unfolding handle
sealed_body =
    (served_ok axum short signing keys 100 first (call "Bearer key" "/v1/crypto/encrypt" 5)
      post_encrypt_v1 (encrypted_v1 sealed.0) encrypt_call-IsAdmitted (rw sealed.1 refl)).1
