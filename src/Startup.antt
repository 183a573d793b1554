-- ===== src/Startup.antt =====
-- `main` of src/main.rs, up to the address that it listens on; the answers to requests are those of
-- App.
use Prim.Native.String.{◌++◌ as ◌<>◌}
use secret_management.Prelude.{
  ℕ, ◌<◌, ◌^◌, ◌-◌, String, ◌≡◌, refl, some, or_else, and_then, unwrap_or, Result, ok, ◌>>=◌, arith,
  Option, ok_or, map_some, true, false, Option-cases, inl, inr,
}
use secret_management.Std.Map.{Env, var}
use secret_management.Std.Text.{decimal, parse_u16, starts_with}
use secret_management.Std.Net.{SocketAddr, v4, parse_ipv4, parse_socket_addr}
use secret_management.Std.Net.Hosts.{lacks, parse_socket_addr-joined}
use secret_management.Std.Text.Decimal.{parse_unsigned-decimal}
use secret_management.Crates.{Crates}
use secret_management.App.{AppState, create_app}

abbrev pub port_text : Env → Option String
port_text env = or_else (var "PORT" env) (var "APP_PORT" env)

unfoldable pub port_of : Env → ℕ
port_of env = unwrap_or (and_then (port_text env) parse_u16) 8080

abbrev pub host_of : Env → String
host_of env = unwrap_or (var "APP_HOST" env) "0.0.0.0"

unfoldable pub addr_text : Env → String
addr_text env = host_of env <> ":" <> decimal (port_of env)

-- the state of the application, and the address; IPv6 addresses are read by `parse_v6`
unfoldable pub boot :
    {V C D K R : Type 0}
    → (String → Option V)
    → Crates C D
    → Env
    → Result String (AppState C K R × SocketAddr V)
boot parse_v6 x env = do
  app ← create_app x env
  addr ← ok_or "invalid socket address syntax" (parse_socket_addr parse_v6 (addr_text env))
  ok (app, addr)

port_of-set : (env : Env) (n : ℕ) → n < 2 ^ 16 → port_text env ≡ some (decimal n) → port_of env ≡ n
unfolding port_of
port_of-set env n small e =
    rw (e, parse_unsigned-decimal (2 ^ 16 - 1) n (omega arith) (omega arith)) refl

-- Where the keys are read, a port below 2^16 stands in decimal in PORT, or in APP_PORT where PORT is
-- not set, and the host, from APP_HOST or else 0.0.0.0, has no colon and starts with no bracket: the
-- program starts exactly if the host is an IPv4 address, with the application that the environment
-- describes, and listens at that address and that port; a host name ends it with an error.
pub boot_listens :
    {V C D K R : Type 0} (parse_v6 : String → Option V) (x : Crates C D) (env : Env)
    (app : AppState C K R) (n : ℕ)
    → n < 2 ^ 16
    → create_app x env ≡ ok app
    → or_else (var "PORT" env) (var "APP_PORT" env) ≡ some (decimal n)
    → lacks b':' (host_of env) ≡ true
    → starts_with "[" (host_of env) ≡ false
    → boot parse_v6 x env
      ≡ ok_or "invalid socket address syntax"
          (map_some (λ ip. (app, v4 ip n)) (parse_ipv4 (host_of env)))
unfolding boot addr_text
boot_listens parse_v6 x env app n small started e plain unbracketed =
    rw
      (
        started,
        port_of-set env n small e,
        parse_socket_addr-joined parse_v6 (host_of env) n plain unbracketed small,
      )
      (elim (Option-cases (parse_ipv4 (host_of env))) [
        | inl q ↦ rw q refl
        | inr (ip, q) ↦ rw q refl
      ])
