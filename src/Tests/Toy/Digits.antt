-- ===== src/Tests/Toy/Digits.antt =====
-- Bytes as text for the runs of src/crypto/envelope.rs: each byte is so many ones, and a zero.

use secret_management.Prelude.{
  ℕ, zero, suc, ◌+◌, code, String, ◌≡◌, refl, ap, ◌∙◌, true, false, eqb, ltb, Option, none, some,
  [], ◌∷◌, Bytes, IsBytes, Bool-cases, inl, inr, arith,
}

abbrev ones : ℕ → String → String
ones zero s = String.◌∷◌ "0" s
ones (suc n) s = String.◌∷◌ "1" (ones n s)

abbrev pub to_digits : Bytes → String
to_digits [] = ""
to_digits (b ∷ bs) = ones b (to_digits bs)

abbrev with_byte : ℕ → Option Bytes → Option Bytes
with_byte n none = none
with_byte n (some bs) = elim (ltb n 256) [ true ↦ some (n ∷ bs) | false ↦ none ]

abbrev pub from_digits : ℕ → String → Option Bytes
from_digits n String.[] = some []
from_digits n (String.◌∷◌ c s) = elim (eqb (code c) 48) [
  | true ↦ with_byte n (from_digits 0 s)
  | false ↦ from_digits (suc n) s
]

from_digits-ones :
    (k n : ℕ) (s : String) → from_digits k (ones n s) ≡ from_digits (k + n) (String.◌∷◌ "0" s)
from_digits-ones k zero s = ap (λ (j : ℕ). from_digits j (String.◌∷◌ "0" s)) (omega arith)
from_digits-ones k (suc n) s =
    from_digits-ones (suc k) n s ∙ ap (λ (j : ℕ). from_digits j (String.◌∷◌ "0" s)) (omega arith)

pub from_digits-to_digits : (b : Bytes) → IsBytes b → from_digits 0 (to_digits b) ≡ some b
from_digits-to_digits [] h = refl
from_digits-to_digits (b ∷ bs) (small, h) =
    from_digits-ones 0 b (to_digits bs) ∙ ground (arith, from_digits-to_digits bs h)

with_byte-IsBytes :
    (n : ℕ) (o : Option Bytes) (b : Bytes)
    → ((c : Bytes) → o ≡ some c → IsBytes c)
    → with_byte n o ≡ some b
    → IsBytes b
with_byte-IsBytes n none b h e = cc
with_byte-IsBytes n (some c) b h e = ground (arith, h c refl)

pub from_digits-IsBytes : (n : ℕ) (s : String) (b : Bytes) → from_digits n s ≡ some b → IsBytes b
from_digits-IsBytes n String.[] b e = ground arith
from_digits-IsBytes n (String.◌∷◌ c s) b e = elim (Bool-cases (eqb (code c) 48)) [
  | inr one ↦ from_digits-IsBytes (suc n) s b (rw (one, from_digits) at e)
  | inl last ↦
      with_byte-IsBytes n (from_digits 0 s) b (from_digits-IsBytes 0 s)
        (rw (last, from_digits) at e)
]
