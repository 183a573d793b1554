-- ===== src/Std/Text/Decimal.antt =====
-- Numbers printed and read: `n.to_string().parse()` gives `n`.
use native.Mathlib.Numerals.{unary_clauses}
use Prim.Native.String.{[], ◌∷◌, char_at}
use secret_management.Prelude.{
  ℕ, zero, suc, ◌+◌, ◌-◌, ◌*◌, ◌/◌, ◌%◌, ◌^◌, ◌≤◌, ◌<◌, code, String, ◌≡◌, refl, ap, ◌∙◌, Bool,
  true, false, ◌&&◌, arith, leb, eqb, some, Bool-cases, inl, inr,
}
use secret_management.Std.Text.{is_digit, parse_digits, parse_unsigned, decimal_digits, decimal}

digit : ℕ → Bool
digit d = eqb (code (char_at "0123456789" d)) (48 + d)

-- The test of the first `n` digits.
digits : ℕ → Bool
digits zero = true
digits (suc n) = digits n && digit n

digit_of_digits : {d : ℕ} (n : ℕ) → d < n → digits n ≡ true → digit d ≡ true
unfolding digits
digit_of_digits {d = d} (suc n) inside all = ground (arith, digit_of_digits {d = d} n)
digit_of_digits zero inside all = absurd (omega arith)

digits_hold : digits 10 ≡ true
unfolding digits digit
digits_hold = refl

pub code-digit : (d : ℕ) → d < 10 → code (char_at "0123456789" d) ≡ 48 + d
unfolding digit
code-digit d inside = ground (arith, digit_of_digits {d = d} 10 inside digits_hold)

-- The last digit of a number, read after what the others give.
parse_digits_last :
    (limit q n : ℕ) (s : String)
    → q ≡ n / 10
    → n ≤ limit
    → parse_digits limit q (char_at "0123456789" (n % 10) ∷ s) ≡ parse_digits limit n s
unfolding parse_digits
parse_digits_last limit q n s e small =
    let c = code-digit (n % 10) (omega arith) in
    let read : q * 10 + (code (char_at "0123456789" (n % 10)) - 48) ≡ n = omega (arith, c, e) in
    let is_one : is_digit (char_at "0123456789" (n % 10)) ≡ true = ground (arith, c) in
    rw (is_one, read) (ground arith)

parse_digits-decimal_digits :
    (limit fuel n : ℕ) (s : String)
    → n < 10 ^ fuel
    → n ≤ limit
    → parse_digits limit 0 (decimal_digits fuel n s) ≡ parse_digits limit n s
unfolding decimal_digits
parse_digits-decimal_digits limit zero n s inside small =
    ap (λ (k : ℕ). parse_digits limit k s) (omega (arith, inside))
parse_digits-decimal_digits limit (suc fuel) n s inside small = elim (Bool-cases (leb n 9)) [
  | inl e ↦ rw e (parse_digits_last limit 0 n s (ground arith) small)
  | inr e ↦ rw e (
      parse_digits-decimal_digits limit fuel (n / 10) (char_at "0123456789" (n % 10) ∷ s)
        (omega (arith, simp unary_clauses at inside)) (omega arith)
      ∙ parse_digits_last limit (n / 10) n s refl small)
]

parse_unsigned-digit :
    (limit d : ℕ) (s : String)
    → d < 10
    → parse_unsigned limit (char_at "0123456789" d ∷ s)
      ≡ parse_digits limit 0 (char_at "0123456789" d ∷ s)
unfolding parse_unsigned
parse_unsigned-digit limit d s inside =
    let c = code-digit d inside in
    let no_sign : eqb (code (char_at "0123456789" d)) 43 ≡ false = ground (arith, c) in
    rw no_sign refl

parse_unsigned-decimal_digits :
    (limit fuel n d : ℕ) (s : String)
    → d < 10
    → parse_unsigned limit (decimal_digits fuel n (char_at "0123456789" d ∷ s))
      ≡ parse_digits limit 0 (decimal_digits fuel n (char_at "0123456789" d ∷ s))
unfolding decimal_digits
parse_unsigned-decimal_digits limit zero n d s inside = parse_unsigned-digit limit d s inside
parse_unsigned-decimal_digits limit (suc fuel) n d s inside = elim (Bool-cases (leb n 9)) [
  | inl e ↦ rw e (parse_unsigned-digit limit (n % 10) _ (omega arith))
  | inr e ↦ rw e (parse_unsigned-decimal_digits limit fuel (n / 10) (n % 10) _ (omega arith))
]

parse_unsigned-all_digits :
    (limit fuel n : ℕ)
    → parse_unsigned limit (decimal_digits (suc fuel) n [])
      ≡ parse_digits limit 0 (decimal_digits (suc fuel) n [])
unfolding decimal_digits
parse_unsigned-all_digits limit fuel n = elim (Bool-cases (leb n 9)) [
  | inl e ↦ rw e (parse_unsigned-digit limit (n % 10) [] (omega arith))
  | inr e ↦ rw e (parse_unsigned-decimal_digits limit fuel (n / 10) (n % 10) [] (omega arith))
]

parse_digits_end : (limit n : ℕ) → parse_digits limit n [] ≡ some n
unfolding parse_digits
parse_digits_end limit n = refl

pub parse_digits-decimal :
    (limit n : ℕ) → n < 10 ^ 20 → n ≤ limit → parse_digits limit 0 (decimal n) ≡ some n
unfolding decimal
parse_digits-decimal limit n inside small =
    parse_digits-decimal_digits limit 20 n [] inside small ∙ parse_digits_end limit n

-- A number of at most 20 digits, written and read with a limit that it keeps.
pub parse_unsigned-decimal :
    (limit n : ℕ) → n < 10 ^ 20 → n ≤ limit → parse_unsigned limit (decimal n) ≡ some n
unfolding decimal
parse_unsigned-decimal limit n inside small =
    parse_unsigned-all_digits limit 19 n ∙ parse_digits-decimal limit n inside small
