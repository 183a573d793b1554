-- ===== src/Std/Text.antt =====
-- Rust's `str`: `trim`, `to_ascii_lowercase`, `strip_prefix`, `split` and the like, over the
-- native texts, whose characters are Unicode scalar values as Rust's `char` is. Here `[]` and `∷`
-- are those of texts.
pub mod Case
pub mod Decimal
use Prim.Native.String.{[], ◌∷◌, char_at}
use mathlib.Core.List.{List}
use secret_management.Prelude.{
  ℕ, zero, suc, ◌+◌, ◌-◌, ◌*◌, ◌/◌, ◌%◌, ◌^◌, Char, code, String, Bool, true, false, ◌&&◌, ◌||◌,
  Option, none, some, leb, eqb, ◌==◌, if◌then◌else◌, map_some, is_some, and_then,
}

-- `char::is_whitespace`: the property White_Space of Unicode.
unfoldable pub is_whitespace : Char → Bool
is_whitespace c =
    (leb 9 (code c) && leb (code c) 13)
    || eqb (code c) 32
    || eqb (code c) 0x85
    || eqb (code c) 0xa0
    || eqb (code c) 0x1680
    || (leb 0x2000 (code c) && leb (code c) 0x200a)
    || eqb (code c) 0x2028
    || eqb (code c) 0x2029
    || eqb (code c) 0x202f
    || eqb (code c) 0x205f
    || eqb (code c) 0x3000

unfoldable pub trim_start : String → String
trim_start [] = []
trim_start (c ∷ s) = let rest = trim_start s in if is_whitespace c then rest else c ∷ s

-- A character in front of a text that is trimmed at its end.
unfoldable pub cons_trimmed : Char → String → String
cons_trimmed c [] = if is_whitespace c then [] else c ∷ []
cons_trimmed c (d ∷ s) = c ∷ d ∷ s

unfoldable pub trim_end : String → String
unfolding cons_trimmed
trim_end [] = []
trim_end (c ∷ s) = cons_trimmed c (trim_end s)

-- `str::trim`
unfoldable pub trim : String → String
unfolding trim_start trim_end cons_trimmed
trim s = trim_end (trim_start s)

abbrev pub is_upper : Char → Bool
is_upper c = leb 65 (code c) && leb (code c) 90

-- `char::to_ascii_lowercase`
unfoldable pub lower_char : Char → Char
lower_char c = if is_upper c then char_at "abcdefghijklmnopqrstuvwxyz" (code c - 65) else c

-- `str::to_ascii_lowercase`
unfoldable pub to_ascii_lowercase : String → String
to_ascii_lowercase [] = []
to_ascii_lowercase (c ∷ s) = lower_char c ∷ to_ascii_lowercase s

-- `str::eq_ignore_ascii_case`
unfoldable pub eq_ignore_ascii_case : String → String → Bool
eq_ignore_ascii_case s t = to_ascii_lowercase s == to_ascii_lowercase t

-- `s.strip_prefix(p)`, the prefix first
unfoldable pub strip_prefix : String → String → Option String
strip_prefix [] s = some s
strip_prefix (p ∷ ps) [] = none
strip_prefix (p ∷ ps) (c ∷ s) =
    let rest = strip_prefix ps s in if eqb (code p) (code c) then rest else none

-- `s.strip_suffix(p)`, the suffix first
unfoldable pub strip_suffix : String → String → Option String
strip_suffix p [] = if p == [] then some [] else none
strip_suffix p (c ∷ s) =
    let rest = strip_suffix p s in if p == c ∷ s then some [] else map_some (◌∷◌ c) rest

unfoldable pub starts_with : String → String → Bool
unfolding strip_prefix
starts_with p s = is_some (strip_prefix p s)

-- `s.contains(p)` for a text `p`, the pattern first
unfoldable pub contains : String → String → Bool
unfolding starts_with
contains p [] = starts_with p []
contains p (c ∷ s) = starts_with p (c ∷ s) || contains p s

-- A character in front of the first of the parts.
abbrev pub cons_first : Char → List String → List String
cons_first c List.[] = List.◌∷◌ (c ∷ []) List.[]
cons_first c (List.◌∷◌ part parts) = List.◌∷◌ (c ∷ part) parts

-- `s.split(d)` for a character `d`, by its number
unfoldable pub split : ℕ → String → List String
split d [] = List.◌∷◌ [] List.[]
split d (c ∷ s) =
    let rest = split d s in if eqb (code c) d then List.◌∷◌ [] rest else cons_first c rest

abbrev pub cons_key : Char → String × String → String × String
cons_key c (k, v) = (c ∷ k, v)

-- `s.split_once(d)`
unfoldable pub split_once : ℕ → String → Option (String × String)
split_once d [] = none
split_once d (c ∷ s) =
    let rest = split_once d s in if eqb (code c) d then some ([], s) else map_some (cons_key c) rest

-- `s.replace('_', "-")`
unfoldable pub underscores_to_dashes : String → String
underscores_to_dashes [] = []
underscores_to_dashes (c ∷ s) =
    (if eqb (code c) b'_' then char_at "-" 0 else c) ∷ underscores_to_dashes s

abbrev pub is_digit : Char → Bool
is_digit c = leb 48 (code c) && leb (code c) 57

-- The digits of `parse`, with what was read so far; more than `limit` is an overflow.
unfoldable pub parse_digits : ℕ → ℕ → String → Option ℕ
parse_digits limit n [] = some n
parse_digits limit n (c ∷ s) =
    let n' = n * 10 + (code c - 48) in
    let rest = parse_digits limit n' s in if is_digit c && leb n' limit then rest else none

-- `s.parse().ok()` for an unsigned integer up to `limit`: an optional plus sign and at least one
-- digit
unfoldable pub parse_unsigned : ℕ → String → Option ℕ
unfolding parse_digits
parse_unsigned limit [] = none
parse_unsigned limit (c ∷ s) =
    if eqb (code c) b'+'
    then (if s == [] then none else parse_digits limit 0 s)
    else parse_digits limit 0 (c ∷ s)

-- `s.parse::<usize>().ok()`
abbrev pub parse_usize : String → Option ℕ
parse_usize = parse_unsigned (2 ^ 64 - 1)

-- `s.parse::<u16>().ok()`
abbrev pub parse_u16 : String → Option ℕ
parse_u16 = parse_unsigned (2 ^ 16 - 1)

-- The last `fuel` decimal digits of a number, without leading zeros, in front of a text.
unfoldable pub decimal_digits : ℕ → ℕ → String → String
decimal_digits zero n s = s
decimal_digits (suc fuel) n s =
    let s' = char_at "0123456789" (n % 10) ∷ s in
    let longer = decimal_digits fuel (n / 10) s' in if leb n 9 then s' else longer

-- `n.to_string()` for a `usize`, which has 20 digits at most
unfoldable pub decimal : ℕ → String
unfolding decimal_digits
decimal n = decimal_digits 20 n []
