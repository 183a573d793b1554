-- ===== src/Tests/Auth.antt =====
-- Runs of src/middleware/auth.rs.
use secret_management.Prelude.{◌≡◌, ◌↔◌, refl, true, String, none, some, [], ◌∷◌, ok, err}
use secret_management.Http.{Request, unauthorized}
use secret_management.Std.Map.{Env, var, get}
use secret_management.Std.Text.{
  lower_char, to_ascii_lowercase, trim, split, split_once, strip_prefix, is_whitespace,
}
use secret_management.Auth.{
  role_of, encrypt_only, decrypt_only, allows, ApiKeyStore, ct_eq, role_for, provided_key,
  require_api_key,
}
use secret_management.Auth.Compare.{ct_eq_iff}
use secret_management.Auth.Access.{require_api_key_iff}
use secret_management.Tests.Toy.{toy}
use secret_management.Auth.Unnamed.{last_blank, without_header_iff}
use secret_management.Auth.FromEnv.{parse, from_env}

abbrev two_keys : ApiKeyStore
two_keys = record { keys = ("writer", encrypt_only) ∷ ("reader", decrypt_only) ∷ [] }

abbrev request : Request
request = record {
  authorization = some "Bearer reader";
  forwarded_for = none;
  peer = none;
  path = "/v1/crypto/decrypt";
}

ct_eq_iff_example : (ct_eq "reader" "writer" ≡ true) ↔ (◌≡◌ {A = String} "reader" "writer")
ct_eq_iff_example = ct_eq_iff "reader" "writer"

require_api_key_iff_example : (require_api_key two_keys request ok ≡ ok decrypt_only) ↔ (
    (get (provided_key request) two_keys.keys ≡ some decrypt_only)
    × (allows decrypt_only request.path ≡ true))
require_api_key_iff_example = require_api_key_iff two_keys request decrypt_only

-- An unknown key.
abbrev stranger : Request
stranger = record request { authorization = some "Bearer guess" }

stranger_refused : require_api_key two_keys stranger ok ≡ err unauthorized
unfolding require_api_key provided_key role_for ct_eq strip_prefix
stranger_refused = refl

encrypt_allowed : allows encrypt_only "/v1/crypto/sign" ≡ true
unfolding allows
encrypt_allowed = refl

abbrev unset : Env
unset = ("APP_KEK_ID", "k2") ∷ []

-- The last entry has a blank key.
abbrev open_environment : Env
open_environment = ("APP_API_KEYS", "writer:both, :encrypt") ∷ []

abbrev nameless : Request
nameless = record request { authorization = none; path = "/encrypt" }

without_header_iff_example :
    (require_api_key (from_env toy open_environment) nameless ok ≡ ok encrypt_only) ↔ (
      (val : String) × (r : String) × (var "APP_API_KEYS" open_environment ≡ some val)
      × (last_blank (split b',' val) ≡ some r)
      × (encrypt_only ≡ parse toy r)
      × (allows encrypt_only "/encrypt" ≡ true))
without_header_iff_example = without_header_iff toy open_environment nameless encrypt_only refl

nameless_admitted : require_api_key (from_env toy open_environment) nameless ok ≡ ok encrypt_only
unfolding get split split_once trim is_whitespace parse role_of allows lower_char to_ascii_lowercase
nameless_admitted =
    (without_header_iff toy open_environment nameless encrypt_only refl).1
      ("writer:both, :encrypt", "encrypt", refl, refl, refl, refl)
