-- ===== src/Tests/Startup.antt =====
-- A start of src/main.rs.
use secret_management.Prelude.{ℕ, String, Option, none, ◌≡◌, refl, ◌∷◌, [], ok, arith}
use secret_management.Std.Map.{Env, get, insert}
use secret_management.Std.Text.{
  starts_with, strip_prefix, strip_suffix, lower_char, to_ascii_lowercase, decimal, split,
  parse_digits,
}
use secret_management.Kek.FromEnv.{
  pair_from_hex, from_hex, old_former, scan_var, scan_vars, is_former_key,
}
use secret_management.Kek.FromEnv
use secret_management.Services.KeyService.{
  tenant_of, default_store, add_tenant, add_tenants, service_of,
}
use secret_management.Services.KeyService
use secret_management.App.{create_app}
use secret_management.Std.Net.{v4, parse_ipv4, parse_octet}
use secret_management.Std.Net.Hosts.{lacks}
use secret_management.Startup.{boot, boot_listens}
use secret_management.Tests.Toy.{hex_a}
use secret_management.Tests.Short.{short}
use secret_management.Tests.App.{app}

-- PORT is set, and APP_PORT to another port.
abbrev environment : Env
environment = ("APP_PORT", "9090") ∷ ("PORT", "3000") ∷ ("APP_KEK", hex_a) ∷ []

started : create_app short environment ≡ ok app
unfolding create_app KeyService.from_env default_store add_tenants add_tenant tenant_of strip_prefix
    strip_suffix from_hex pair_from_hex FromEnv.from_env get insert old_former scan_vars scan_var
    is_former_key starts_with to_ascii_lowercase lower_char service_of
started = refl

-- No IPv6 address is read.
abbrev no_v6 : String → Option ℕ
no_v6 text = none

boot_listens_example :
    boot no_v6 short environment ≡ ok (app, v4 (record { a = 0; b = 0; c = 0; d = 0 }) 3000)
unfolding get decimal lacks starts_with strip_prefix parse_ipv4 parse_octet parse_digits split
boot_listens_example =
    boot_listens no_v6 short environment app 3000 (omega arith) started refl refl refl

-- A host name is no address.
localhost_refused : parse_ipv4 "localhost" ≡ none
unfolding parse_ipv4 split
localhost_refused = refl
