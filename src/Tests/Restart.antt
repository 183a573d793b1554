-- ===== src/Tests/Restart.antt =====
-- A run of src/app.rs before and after a restart with a new key.
use secret_management.Prelude.{ne_of_==, ℕ, ◌≡◌, refl, [], ◌∷◌, Bytes, none, ok}
use secret_management.Std.Map.{Env, get, insert}
use secret_management.Std.Text.{
  starts_with, strip_prefix, strip_suffix, lower_char, to_ascii_lowercase,
}
use secret_management.Std.Utf8.{as_bytes}
use secret_management.Http.{ok_status}
use secret_management.Kek.{KekStore}
use secret_management.Kek.FromEnv.{
  try_former, add_former, former_id, pair_from_hex, from_hex, old_former, scan_var, scan_vars,
  is_former_key,
}
use secret_management.Kek.FromEnv
use secret_management.Auth.{
  both, allows, diff_bytes, ct_eq, find_role, role_for, provided_key, require_api_key,
}
use secret_management.RateLimit.{client_ip, bucket_key, entry_or_new, tick, check}
use secret_management.Services.KeyService.{
  KeyService, tenant_of, default_store, add_tenant, add_tenants, service_of, get_store, rsa_key,
}
use secret_management.Services.KeyService
use secret_management.App.{AppState, create_app}
use secret_management.App.Routes.{route_of, post_decrypt_v1, decrypted_v1}
use secret_management.App.Serve.{World, serve}
use secret_management.App.Steps.{here}
use secret_management.App.Admitted.{IsAdmitted}
use secret_management.App.Sessions.{start}
use secret_management.Tests.Toy.{key_a, hex_a}
use secret_management.Tests.Short.{short, short-IsLawful}
use secret_management.Tests.Signing.{signing}
use secret_management.Tests.App.{
  app, axum, call, decrypt_dto, encrypt_call-IsAdmitted, encrypt_dto, environment, first, keys,
  payload, sealed, sealed_body, started,
}
use secret_management.App.Restart.{Rotates, rotated_is_opened}
use secret_management.Tests.Toy.{key_b, hex_b}

abbrev rotated_environment : Env
rotated_environment =
    ("APP_KEK", hex_b)
    ∷ ("APP_KEK_ID", "k2")
    ∷ ("APP_KEK_OLD", hex_a)
    ∷ ("APP_KEK_OLD_ID", "primary")
    ∷ []

abbrev rotated_store : KekStore Bytes
rotated_store = record {
  current_id = "k2";
  current = key_b;
  current_raw = key_b;
  previous = ("primary", key_a) ∷ [];
  previous_raw = ("primary", key_a) ∷ [];
}

abbrev rotated_app : AppState Bytes Bytes ℕ
rotated_app = record {
  kek_store = rotated_store;
  key_service = record {
    stores = ("default", rotated_store) ∷ [];
    ed25519_cache = [];
    rsa_cache = [];
  };
}

restarted : create_app short rotated_environment ≡ ok rotated_app
unfolding create_app KeyService.from_env default_store add_tenants add_tenant tenant_of strip_prefix
    strip_suffix from_hex pair_from_hex FromEnv.from_env get insert old_former try_former add_former
    scan_vars scan_var former_id is_former_key starts_with to_ascii_lowercase lower_char service_of
restarted = refl

rotation : Rotates short environment rotated_environment
unfolding get
rotation = record {
  hex = hex_a;
  hex' = hex_b;
  raw = key_a;
  raw' = key_b;
  set = refl;
  read = refl;
  set' = refl;
  read' = refl;
  old = refl;
  old_id = refl;
  new_id = ne_of_== "primary" "k2" refl;
}

abbrev fresh : World Bytes Bytes ℕ
fresh = start rotated_app 0

opening_call-IsAdmitted :
    IsAdmitted axum short signing keys 1 fresh
      (call "Bearer key" "/v1/crypto/decrypt" 8)
      post_decrypt_v1
unfolding route_of get require_api_key provided_key strip_prefix starts_with role_for find_role
    ct_eq diff_bytes as_bytes allows check tick entry_or_new bucket_key client_ip
opening_call-IsAdmitted = record {
  role = both;
  routed = refl;
  posted = refl;
  allowed = refl;
  within = refl;
}

shop_missing : get_store app.key_service "shop" ≡ none
unfolding get_store get
shop_missing = refl

inn_missing : get_store rotated_app.key_service "inn" ≡ none
unfolding get_store get
inn_missing = refl

rotated_is_opened_example :
    ((serve axum short signing keys 1 fresh (call "Bearer key" "/v1/crypto/decrypt" 8)).0.status
      ≡ ok_status)
    × ((serve axum short signing keys 1 fresh (call "Bearer key" "/v1/crypto/decrypt" 8)).0.body
        ≡ decrypted_v1 (record { payload_b64 = short.b64_encode payload }))
rotated_is_opened_example =
    rotated_is_opened axum short signing keys keys 100 1 short-IsLawful environment
      rotated_environment rotation app rotated_app 0 0 first fresh
      (call "Bearer key" "/v1/crypto/encrypt" 5) (call "Bearer key" "/v1/crypto/decrypt" 8)
      encrypt_dto decrypt_dto sealed.0 payload (0 ∷ []) started here shop_missing
      encrypt_call-IsAdmitted refl refl sealed_body restarted here inn_missing
      opening_call-IsAdmitted refl refl refl
