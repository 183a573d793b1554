-- ===== src/Std/Net.antt =====
-- `str::parse::<SocketAddr>` of the standard library: an IPv4 address with a port, or an IPv6
-- address, which starts with a bracket.
pub mod Hosts
use Prim.Native.String.{[], ◌∷◌, len}
use mathlib.Core.List.{List}
use secret_management.Prelude.{
  ℕ, String, Bool, true, false, ◌||◌, ◌&&◌, not, Option, none, some, leb, eqb, ◌==◌, code,
  if◌then◌else◌, map_some, and_then, or_else, ◌^◌, ◌-◌,
}
use secret_management.Std.Text.{split, starts_with, parse_digits}

pub record Ipv4Addr : Type 0 where
  pub a : ℕ
  pub b : ℕ
  pub c : ℕ
  pub d : ℕ

-- An address; of an IPv6 address only what its own parser gives.
pub data SocketAddr (V : Type 0) : Type 0 where
  v4 : Ipv4Addr → ℕ → SocketAddr V
  v6 : V → SocketAddr V

-- one of the four numbers: at most three digits, without zeros in front
unfoldable pub parse_octet : String → Option ℕ
unfolding parse_digits starts_with
parse_octet s =
    if s == [] || not (leb (len s) 3) || (starts_with "0" s && not (s == "0"))
    then none
    else parse_digits 255 0 s

-- the port: digits, of which zeros may stand in front
unfoldable pub parse_port : String → Option ℕ
unfolding parse_digits
parse_port s = if s == [] then none else parse_digits (2 ^ 16 - 1) 0 s

abbrev pub quad : Option ℕ → Option ℕ → Option ℕ → Option ℕ → Option Ipv4Addr
quad (some a) (some b) (some c) (some d) = some (record { a = a; b = b; c = c; d = d })
quad _ _ _ _ = none

abbrev pub of_four : List String → Option Ipv4Addr
of_four (List.◌∷◌ a (List.◌∷◌ b (List.◌∷◌ c (List.◌∷◌ d List.[])))) =
    quad (parse_octet a) (parse_octet b) (parse_octet c) (parse_octet d)
of_four _ = none

unfoldable pub parse_ipv4 : String → Option Ipv4Addr
unfolding split
parse_ipv4 s = of_four (split b'.' s)

abbrev pub with_port : {V : Type 0} → Option Ipv4Addr → Option ℕ → Option (SocketAddr V)
with_port (some ip) (some port) = some (v4 ip port)
with_port _ _ = none

abbrev pub of_two : {V : Type 0} → List String → Option (SocketAddr V)
of_two (List.◌∷◌ host (List.◌∷◌ port List.[])) = with_port (parse_ipv4 host) (parse_port port)
of_two _ = none

module _ {V : Type 0} (parse_v6 : String → Option V) where
  unfoldable pub parse_socket_addr : String → Option (SocketAddr V)
  unfolding split starts_with
  parse_socket_addr s =
      if starts_with "[" s then map_some v6 (parse_v6 s) else of_two (split b':' s)
