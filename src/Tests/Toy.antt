-- ===== src/Tests/Toy.antt =====
-- Concrete crates for the runs of the code under src/: they keep every law of `Crates`, and hide
-- nothing.
pub mod Seal
mod Digits
pub mod Base64
use secret_management.Prelude.{
  ℕ, zero, suc, ◌<◌, String, ◌≡◌, refl, Bool, true, false, ◌==◌, eqb, if◌then◌else◌, Option, none,
  some, List, [], ◌∷◌, Bytes, IsBytes, length, arith,
}
use secret_management.Std.Text.{to_ascii_lowercase}
use secret_management.Crates.{Crates, IsLawful, IsAuthentic, Aead}
use secret_management.Tests.Toy.Seal.{toy_aead, toy_aead-IsLawfulAead, toy_aead-IsBinding}
use secret_management.Tests.Toy.Digits.{
  to_digits, from_digits, from_digits-to_digits, from_digits-IsBytes,
}

abbrev pub copies : ℕ → ℕ → Bytes
copies b zero = []
copies b (suc n) = b ∷ copies b n

pub length-copies : (b n : ℕ) → length (copies b n) ≡ n
length-copies b zero = refl
length-copies b (suc n) = omega (arith, length-copies b n)

pub copies-IsBytes : (b n : ℕ) → b < 256 → IsBytes (copies b n)
copies-IsBytes b zero h = tt
copies-IsBytes b (suc n) h = (h, copies-IsBytes b n h)

-- Two keys in hexadecimal, and their bytes.
abbrev pub hex_a : String
hex_a = "0707070707070707070707070707070707070707070707070707070707070707"

abbrev pub hex_b : String
hex_b = "0909090909090909090909090909090909090909090909090909090909090909"

abbrev pub key_a : Bytes
key_a = copies 7 32

abbrev pub key_b : Bytes
key_b = copies 9 32

abbrev read_key : String → Option Bytes
read_key s = if s == hex_a then some key_a else if s == hex_b then some key_b else none

length-read_key : (s : String) (b : Bytes) → read_key s ≡ some b → length b ≡ 32
length-read_key s b e = ground (arith, length-copies 7 32, length-copies 9 32)

abbrev pub toy : Crates Bytes Bytes
toy = record {
  aes = toy_aead;
  chacha = toy_aead;
  from_hex = read_key;
  b64_encode = to_digits;
  b64_decode = from_digits 0;
  random = λ n i. copies 5 n;
  to_lowercase = to_ascii_lowercase;
}

pub toy-IsLawful : IsLawful toy
toy-IsLawful = record {
  aes = toy_aead-IsLawfulAead;
  chacha = toy_aead-IsLawfulAead;
  b64_decode-encode = from_digits-to_digits;
  length-random = λ n i. length-copies 5 n;
  random-IsBytes = λ n i. copies-IsBytes 5 n (omega arith);
  b64_decode-IsBytes = from_digits-IsBytes 0;
  length-from_hex = length-read_key;
}

pub toy-IsAuthentic : IsAuthentic toy
toy-IsAuthentic = record { aes = toy_aead-IsBinding; chacha = toy_aead-IsBinding }
