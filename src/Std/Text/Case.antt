-- ===== src/Std/Text/Case.antt =====
-- Trimming and lowercasing: `s.trim().to_ascii_lowercase()` is the same done twice as once.
use Prim.Native.String.{[], ◌∷◌, char_at}
use secret_management.Std.Text.{
  is_whitespace, trim_start, cons_trimmed, trim_end, trim, is_upper, lower_char, to_ascii_lowercase,
}
use secret_management.Prelude.{
  ℕ, zero, suc, ◌-◌, ◌<◌, Char, code, String, ◌≡◌, refl, Bool, true, false, ◌&&◌, arith, leb, ap,
  sym, ◌∙◌, Bool-cases, inl, inr,
}

-- `s.trim().to_ascii_lowercase()`, as the source writes it wherever it names an algorithm.
unfoldable pub normalize : String → String
normalize s = to_ascii_lowercase (trim s)

-- What stands in the table of lowercase letters is lowercase.
letter : ℕ → Bool
letter k = let c = code (char_at "abcdefghijklmnopqrstuvwxyz" k) in leb 97 c && leb c 122

-- The test of the first `n` places of the table.
letters : ℕ → Bool
letters zero = true
letters (suc n) = letters n && letter n

letter_of_letters : {k : ℕ} (n : ℕ) → k < n → letters n ≡ true → letter k ≡ true
unfolding letters
letter_of_letters {k = k} (suc n) inside all = ground (arith, letter_of_letters {k = k} n)
letter_of_letters zero inside all = absurd (omega arith)

letters_hold : letters 26 ≡ true
unfolding letters letter
letters_hold = refl

code-lower_char :
    (c : Char)
    → is_upper c ≡ true
    → leb 97 (code (lower_char c)) && leb (code (lower_char c)) 122 ≡ true
unfolding lower_char letter
code-lower_char c h =
    ground (arith, letter_of_letters {k = code c - 65} 26 (ground arith) letters_hold)

lower_char_idem : (c : Char) → lower_char (lower_char c) ≡ lower_char c
lower_char_idem c = elim (Bool-cases (is_upper c)) [
  | inl up ↦ unfold lower_char in ground (arith, code-lower_char c up)
  | inr other ↦ unfold lower_char in ground arith
]

not_whitespace : (c : Char) → leb 65 (code c) && leb (code c) 122 ≡ true → is_whitespace c ≡ false
unfolding is_whitespace
not_whitespace c h = ground arith

is_whitespace-lower_char : (c : Char) → is_whitespace (lower_char c) ≡ is_whitespace c
is_whitespace-lower_char c = elim (Bool-cases (is_upper c)) [
  | inl up ↦
      not_whitespace (lower_char c) (ground (arith, code-lower_char c up))
      ∙ sym (not_whitespace c (ground arith))
  | inr other ↦ ap is_whitespace (unfold lower_char in ground arith)
]

lower-cons_trimmed :
    (c : Char) (s : String)
    → to_ascii_lowercase (cons_trimmed c s) ≡ cons_trimmed (lower_char c) (to_ascii_lowercase s)
unfolding to_ascii_lowercase cons_trimmed
lower-cons_trimmed c [] =
    rw (is_whitespace-lower_char c)
      (elim (Bool-cases (is_whitespace c)) [ inl e ↦ rw e | inr e ↦ rw e ])
lower-cons_trimmed c (d ∷ s) = refl

lower-trim_end : (s : String) → to_ascii_lowercase (trim_end s) ≡ trim_end (to_ascii_lowercase s)
unfolding to_ascii_lowercase trim_end
lower-trim_end [] = refl
lower-trim_end (c ∷ s) =
    lower-cons_trimmed c (trim_end s) ∙ ap (cons_trimmed (lower_char c)) (lower-trim_end s)

lower-trim_start :
    (s : String) → to_ascii_lowercase (trim_start s) ≡ trim_start (to_ascii_lowercase s)
unfolding to_ascii_lowercase trim_start
lower-trim_start [] = refl
lower-trim_start (c ∷ s) = ground (arith, is_whitespace-lower_char c, lower-trim_start s)

lower-trim : (s : String) → to_ascii_lowercase (trim s) ≡ trim (to_ascii_lowercase s)
unfolding trim
lower-trim s = lower-trim_end (trim_start s) ∙ ap trim_end (lower-trim_start s)

lower_idem : (s : String) → to_ascii_lowercase (to_ascii_lowercase s) ≡ to_ascii_lowercase s
unfolding to_ascii_lowercase
lower_idem [] = refl
lower_idem (c ∷ s) = cc (lower_char_idem c, lower_idem s)

starts_blank : String → Bool
starts_blank [] = false
starts_blank (c ∷ s) = is_whitespace c

starts_blank-trim_start : (s : String) → starts_blank (trim_start s) ≡ false
unfolding starts_blank trim_start
starts_blank-trim_start [] = refl
starts_blank-trim_start (c ∷ s) = ground (arith, starts_blank-trim_start s)

starts_blank-cons_trimmed :
    (c : Char) (s : String) → is_whitespace c ≡ false → starts_blank (cons_trimmed c s) ≡ false
unfolding starts_blank cons_trimmed
starts_blank-cons_trimmed c [] h = rw h h
starts_blank-cons_trimmed c (d ∷ s) h = h

starts_blank-trim_end : (s : String) → starts_blank s ≡ false → starts_blank (trim_end s) ≡ false
unfolding starts_blank trim_end
starts_blank-trim_end [] h = refl
starts_blank-trim_end (c ∷ s) h = starts_blank-cons_trimmed c (trim_end s) h

trim_start_fixed : (s : String) → starts_blank s ≡ false → trim_start s ≡ s
unfolding starts_blank trim_start
trim_start_fixed [] h = refl
trim_start_fixed (c ∷ s) h = ground arith

trim_end-cons_trimmed :
    (c : Char) (s : String) → trim_end s ≡ s → trim_end (cons_trimmed c s) ≡ cons_trimmed c s
unfolding trim_end cons_trimmed
trim_end-cons_trimmed c [] h = elim (Bool-cases (is_whitespace c)) [
  | inl e ↦ rw e
  | inr e ↦ rw (e, e)
]
trim_end-cons_trimmed c (d ∷ s) h = ap (cons_trimmed c) h

trim_end_idem : (s : String) → trim_end (trim_end s) ≡ trim_end s
unfolding trim_end
trim_end_idem [] = refl
trim_end_idem (c ∷ s) = trim_end-cons_trimmed c (trim_end s) (trim_end_idem s)

pub trim_idem : (s : String) → trim (trim s) ≡ trim s
unfolding trim
trim_idem s =
    ap trim_end (
      trim_start_fixed (trim_end (trim_start s))
        (starts_blank-trim_end (trim_start s) (starts_blank-trim_start s)))
    ∙ trim_end_idem (trim_start s)

-- Names of algorithms are normalised once and for all.
pub normalize_idem : (s : String) → normalize (normalize s) ≡ normalize s
unfolding normalize
normalize_idem s =
    ap to_ascii_lowercase (sym (lower-trim (trim s)) ∙ ap to_ascii_lowercase (trim_idem s))
    ∙ lower_idem (trim s)
