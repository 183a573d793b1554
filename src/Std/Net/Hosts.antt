-- ===== src/Std/Net/Hosts.antt =====
-- How the address of a host without a colon, and a port, is read.
use Prim.Native.String.append
use text.Mathlib.TextEquality.{eq_iff}
use Prim.Native.String.{char_at, [], ◌∷◌, ◌++◌ as ◌<>◌}
use mathlib.Core.List.{List}
use secret_management.Prelude.{
  ℕ, zero, suc, String, Char, ◌≡◌, refl, ap, Bool, true, false, ◌&&◌, not, Option, some, eqb, code,
  arith, ◌<◌, ◌^◌, ◌%◌, ◌/◌, leb, inl, inr, Bool-cases, Option-cases, ◌==◌, ◌∙◌, ◌-◌, map_some,
}
use secret_management.Std.Text.{
  split, starts_with, strip_prefix, decimal, decimal_digits, parse_unsigned,
}
use secret_management.Std.Text.Decimal.{code-digit, parse_digits-decimal, parse_unsigned-decimal}
use secret_management.Std.Net.{v4, parse_port, parse_ipv4, parse_socket_addr}

-- The character is not in the text.
unfoldable pub lacks : ℕ → String → Bool
lacks d [] = true
lacks d (c ∷ s) = not (eqb (code c) d) && lacks d s

split-lacks : (d : ℕ) (s : String) → lacks d s ≡ true → split d s ≡ List.◌∷◌ s List.[]
unfolding split lacks
split-lacks d [] h = refl
split-lacks d (c ∷ s) h = ground (arith, split-lacks d s)

split-joined :
    (d : ℕ) (s t : String) (e : Char)
    → lacks d s ≡ true
    → code e ≡ d
    → split d (s <> (e ∷ t)) ≡ List.◌∷◌ s (split d t)
unfolding split lacks
split-joined d [] t e h q = rw append.nil (ground (arith, q))
split-joined d (c ∷ s) t e h q = rw append.cons (ground (arith, split-joined d s t e))

lacks-decimal_digits :
    (fuel n : ℕ) (s : String) → lacks b':' s ≡ true → lacks b':' (decimal_digits fuel n s) ≡ true
unfolding lacks decimal_digits
lacks-decimal_digits zero n s h = h
lacks-decimal_digits (suc fuel) n s h = elim (Bool-cases (leb n 9)) [
  | inl e ↦ rw e (ground (arith, code-digit (n % 10) (omega arith), h))
  | inr e ↦
      rw e (
        lacks-decimal_digits fuel (n / 10) _ (ground (arith, code-digit (n % 10) (omega arith), h)))
]

lacks-decimal : (n : ℕ) → lacks b':' (decimal n) ≡ true
unfolding decimal lacks
lacks-decimal n = lacks-decimal_digits 20 n [] refl

parse_port-decimal : (n : ℕ) → n < 2 ^ 16 → parse_port (decimal n) ≡ some n
unfolding parse_port parse_unsigned
parse_port-decimal n h = elim (Bool-cases (decimal n == [])) [
  | inl e ↦
      let read = parse_unsigned-decimal (2 ^ 16 - 1) n (omega arith) (omega arith) in
      cc (rw ((eq_iff (decimal n) []).0 e) at read)
  | inr e ↦ rw (e, parse_digits-decimal (2 ^ 16 - 1) n (omega arith) (omega arith)) refl
]

colon_joined : (t : String) → ":" <> t ≡ char_at ":" 0 ∷ t
colon_joined t =
    append.cons (char_at ":" 0) [] t ∙ ap (λ (u : String). char_at ":" 0 ∷ u) (append.nil t)

bracket_joined : (host t : String) → starts_with "[" (host <> ":" <> t) ≡ starts_with "[" host
unfolding starts_with strip_prefix
bracket_joined [] t = rw (colon_joined t, append.nil) refl
bracket_joined (c ∷ s) t =
    rw append.cons (elim (Bool-cases (eqb 91 (code c))) [ inl e ↦ rw e refl | inr e ↦ rw e refl ])

-- A host without a colon that opens no bracket, and a port below 2^16 in decimal, are read as the IPv4
-- address that the host is, with the port, and are no address where the host is none.
pub parse_socket_addr-joined :
    {V : Type 0} (parse_v6 : String → Option V) (host : String) (n : ℕ)
    → lacks b':' host ≡ true
    → starts_with "[" host ≡ false
    → n < 2 ^ 16
    → parse_socket_addr parse_v6 (host <> ":" <> decimal n)
      ≡ map_some (λ ip. v4 ip n) (parse_ipv4 host)
unfolding parse_socket_addr
parse_socket_addr-joined parse_v6 host n h b small =
    rw
      (
        bracket_joined host (decimal n),
        b,
        colon_joined (decimal n),
        split-joined b':' host (decimal n) (char_at ":" 0) h refl,
        split-lacks b':' (decimal n) (lacks-decimal n),
        parse_port-decimal n small,
      )
      (elim (Option-cases (parse_ipv4 host)) [ inl e ↦ rw e refl | inr (ip, e) ↦ rw e refl ])
