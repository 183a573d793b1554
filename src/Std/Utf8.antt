-- ===== src/Std/Utf8.antt =====
-- `str::as_bytes`: the UTF-8 of a text, which `str::len` measures.
use Prim.Native.Char.{len_utf8, len_utf8_def}
use Prim.Native.String.{len}
use Prim.Native.String.len
use text.Mathlib.TextEquality.{Char-path}
use secret_management.Prelude.{
  ℕ, ◌+◌, ◌/◌, ◌%◌, Char, code, String, ◌≡◌, refl, sym, List, [], ◌∷◌, ◌++◌, arith, ltb, length,
  length-append, if◌then◌else◌,
}

-- The UTF-8 of one scalar value.
abbrev pub encode_utf8 : ℕ → List ℕ
encode_utf8 n =
    if ltb n 0x80
    then n ∷ []
    else if ltb n 0x800
    then (192 + n / 64) ∷ (128 + n % 64) ∷ []
    else if ltb n 0x10000
    then (224 + n / 4096) ∷ (128 + n / 64 % 64) ∷ (128 + n % 64) ∷ []
    else (240 + n / 262144) ∷ (128 + n / 4096 % 64) ∷ (128 + n / 64 % 64) ∷ (128 + n % 64) ∷ []

unfoldable pub as_bytes : String → List ℕ
as_bytes String.[] = []
as_bytes (String.◌∷◌ c s) = encode_utf8 (code c) ++ as_bytes s

encode_utf8_inj :
    (m n : ℕ) (r s : List ℕ) → encode_utf8 m ++ r ≡ encode_utf8 n ++ s → (m ≡ n) × (r ≡ s)
encode_utf8_inj m n r s e = ground arith

encode_utf8_ne-nil : (m : ℕ) (r : List ℕ) → encode_utf8 m ++ r ≡ [] → ⊥
encode_utf8_ne-nil m r e = ground arith

-- A text is given by its bytes.
pub as_bytes_inj : (s t : String) → as_bytes s ≡ as_bytes t → s ≡ t
unfolding as_bytes
as_bytes_inj String.[] String.[] e = refl
as_bytes_inj String.[] (String.◌∷◌ d t) e =
    absurd (encode_utf8_ne-nil (code d) (as_bytes t) (sym e))
as_bytes_inj (String.◌∷◌ c s) String.[] e = absurd (encode_utf8_ne-nil (code c) (as_bytes s) e)
as_bytes_inj (String.◌∷◌ c s) (String.◌∷◌ d t) e =
    let (p, q) = encode_utf8_inj (code c) (code d) (as_bytes s) (as_bytes t) e in
    cc (Char-path c d p, as_bytes_inj s t q)

length-encode_utf8 : (c : Char) → length (encode_utf8 (code c)) ≡ len_utf8 c
length-encode_utf8 c = rw (len_utf8_def c) (ground arith)

-- `s.len()` is the number of bytes.
pub length-as_bytes : (s : String) → length (as_bytes s) ≡ len s
unfolding as_bytes
length-as_bytes String.[] = refl
length-as_bytes (String.◌∷◌ c s) = omega (
  arith,
  length-append (encode_utf8 (code c)) (as_bytes s),
  length-encode_utf8 c,
  length-as_bytes s,
  len.cons c s,
)
