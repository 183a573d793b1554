-- ===== src/Tests/Toy/Base64.antt =====
-- Base64 with padding, for the runs that depend on the length of a text. Its decoder is laxer than
-- that of `base64`: it takes any character for a digit.
use Prim.Native.Char.{len_utf8}
use Prim.Native.String.{len, char_at}
use Prim.Native.String.len
use secret_management.Prelude.{
  Option-cases, inl, inr, subst, some_inj, ℕ, zero, suc, ◌+◌, ◌*◌, ◌/◌, ◌%◌, ◌<◌, Char, code,
  String, ◌≡◌, refl, Bool, true, false, eqb, leb, not, ◌-◌, ◌&&◌, if◌then◌else◌, Option, none, some,
  map_some, [], ◌∷◌, Bytes, IsBytes, length, arith,
}

-- The character of a digit below 64, and the digit of a character.
unfoldable pub char_of : ℕ → Char
char_of d = char_at "ABCDEFGHIJKLMNOPQRSTUVWXYZabcdefghijklmnopqrstuvwxyz0123456789+/" d

unfoldable pub digit_of : Char → ℕ
digit_of c =
    if leb 97 (code c)
    then code c - 71
    else if leb 65 (code c)
    then code c - 65
    else if leb 48 (code c)
    then code c + 4
    else if eqb (code c) 43
    then 62
    else 63

abbrev is_pad : Char → Bool
is_pad c = eqb (code c) 61

-- What is checked of every digit.
abbrev is_faithful : ℕ → Bool
is_faithful d =
    eqb (digit_of (char_of d)) d && (eqb (len_utf8 (char_of d)) 1 && not (is_pad (char_of d)))

all_below : ℕ → (ℕ → Bool) → Bool
all_below zero p = true
all_below (suc n) p = p n && all_below n p

all_below_lem : (n : ℕ) (p : ℕ → Bool) (d : ℕ) → all_below n p ≡ true → d < n → p d ≡ true
unfolding all_below
all_below_lem zero p d h lt = absurd (omega arith)
all_below_lem (suc n) p d h lt = ground (arith, all_below_lem n p d)

digits_faithful : all_below 64 is_faithful ≡ true
unfolding all_below char_of digit_of
digits_faithful = refl

digit :
    (d : ℕ)
    → d < 64
    → (digit_of (char_of d) ≡ d) × (len_utf8 (char_of d) ≡ 1) × (is_pad (char_of d) ≡ false)
digit d h =
    let e = all_below_lem 64 is_faithful d digits_faithful h in
    (ground arith, ground arith, ground arith)

abbrev pub encode64 : Bytes → String
encode64 [] = String.[]
encode64 (a ∷ []) =
    String.◌∷◌ (char_of (a / 4))
      (String.◌∷◌ (char_of (a % 4 * 16)) (String.◌∷◌ "=" (String.◌∷◌ "=" String.[])))
encode64 (a ∷ b ∷ []) = String.◌∷◌ (char_of (a / 4)) (
    String.◌∷◌ (char_of (a % 4 * 16 + b / 16))
      (String.◌∷◌ (char_of (b % 16 * 4)) (String.◌∷◌ "=" String.[])))
encode64 (a ∷ b ∷ c ∷ bs) = String.◌∷◌ (char_of (a / 4)) (
    String.◌∷◌ (char_of (a % 4 * 16 + b / 16))
      (String.◌∷◌ (char_of (b % 16 * 4 + c / 64)) (String.◌∷◌ (char_of (c % 64)) (encode64 bs))))

-- The bytes of four characters, in front of those of the rest.
abbrev group : Char → Char → Char → Char → Bytes → Bytes
group p q r t rest =
    let first = (digit_of p * 4 + digit_of q / 16) % 256 in
    let second = (digit_of q * 16 + digit_of r / 4) % 256 in
    let third = (digit_of r * 64 + digit_of t) % 256 in
    if is_pad r
    then first ∷ []
    else if is_pad t
    then first ∷ second ∷ []
    else first ∷ second ∷ third ∷ rest

abbrev pub decode64 : String → Option Bytes
decode64 String.[] = some []
decode64 (String.◌∷◌ p (String.◌∷◌ q (String.◌∷◌ r (String.◌∷◌ t s)))) =
    map_some (group p q r t) (decode64 s)
decode64 _ = none

pub decode64-encode64 : (b : Bytes) → IsBytes b → decode64 (encode64 b) ≡ some b
decode64-encode64 [] h = refl
decode64-encode64 (a ∷ []) (ha, _) =
    let (p, _, _) = digit (a / 4) (omega arith) in
    let (q, _, _) = digit (a % 4 * 16) (omega arith) in ground arith
decode64-encode64 (a ∷ b ∷ []) (ha, (hb, _)) =
    let (p, _, _) = digit (a / 4) (omega arith) in
    let (q, _, _) = digit (a % 4 * 16 + b / 16) (omega arith) in
    let (r, _, nr) = digit (b % 16 * 4) (omega arith) in ground arith
decode64-encode64 (a ∷ b ∷ c ∷ bs) (ha, (hb, (hc, h))) =
    let (p, _, _) = digit (a / 4) (omega arith) in
    let (q, _, _) = digit (a % 4 * 16 + b / 16) (omega arith) in
    let (r, _, nr) = digit (b % 16 * 4 + c / 64) (omega arith) in
    let (t, _, nt) = digit (c % 64) (omega arith) in ground (arith, decode64-encode64 bs h)

group-IsBytes : (p q r t : Char) (rest : Bytes) → IsBytes rest → IsBytes (group p q r t rest)
group-IsBytes p q r t rest h = ground arith

pub decode64-IsBytes : (s : String) (b : Bytes) → decode64 s ≡ some b → IsBytes b
decode64-IsBytes String.[] b e = ground arith
decode64-IsBytes (String.◌∷◌ p String.[]) b e = cc
decode64-IsBytes (String.◌∷◌ p (String.◌∷◌ q String.[])) b e = cc
decode64-IsBytes (String.◌∷◌ p (String.◌∷◌ q (String.◌∷◌ r String.[]))) b e = cc
decode64-IsBytes (String.◌∷◌ p (String.◌∷◌ q (String.◌∷◌ r (String.◌∷◌ t s)))) b e =
    elim (Option-cases (decode64 s)) [
      | inl none_read ↦ cc
      | inr (rest, read) ↦
          subst IsBytes (some_inj (rw (read, decode64) at e))
            (group-IsBytes p q r t rest (decode64-IsBytes s rest read))
    ]

len-four :
    (p q r t : Char) (s : String)
    → len_utf8 p ≡ 1
    → len_utf8 q ≡ 1
    → len_utf8 r ≡ 1
    → len_utf8 t ≡ 1
    → len (String.◌∷◌ p (String.◌∷◌ q (String.◌∷◌ r (String.◌∷◌ t s)))) ≡ 4 + len s
len-four p q r t s hp hq hr ht = omega (
  arith,
  len.cons p (String.◌∷◌ q (String.◌∷◌ r (String.◌∷◌ t s))),
  len.cons q (String.◌∷◌ r (String.◌∷◌ t s)),
  len.cons r (String.◌∷◌ t s),
  len.cons t s,
)

pub len-encode64 : (b : Bytes) → IsBytes b → len (encode64 b) ≡ (length b + 2) / 3 * 4
len-encode64 [] h = refl
len-encode64 (a ∷ []) (ha, _) =
    len-four _ _ "=" "=" String.[] (digit (a / 4) (omega arith)).1
      (digit (a % 4 * 16) (omega arith)).1 refl refl
len-encode64 (a ∷ b ∷ []) (ha, (hb, _)) =
    len-four _ _ _ "=" String.[] (digit (a / 4) (omega arith)).1
      (digit (a % 4 * 16 + b / 16) (omega arith)).1 (digit (b % 16 * 4) (omega arith)).1 refl
len-encode64 (a ∷ b ∷ c ∷ bs) (ha, (hb, (hc, h))) = omega (
  arith,
  len-four (char_of (a / 4)) (char_of (a % 4 * 16 + b / 16)) (char_of (b % 16 * 4 + c / 64))
      (char_of (c % 64)) (encode64 bs) (digit (a / 4) (omega arith)).1
      (digit (a % 4 * 16 + b / 16) (omega arith)).1 (digit (b % 16 * 4 + c / 64) (omega arith)).1
      (digit (c % 64) (omega arith)).1,
  len-encode64 bs h,
)
