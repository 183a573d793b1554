-- ===== src/Aad/Demo.antt =====
-- `demo` of src/crypto/aad.rs: the check that the test of that file runs, as whether it passes.
use secret_management.Prelude.{
  String, List, [], ◌∷◌, ◌++◌, Bytes, length, Bool, true, false, eqb, leb, ◌&&◌,
}
use secret_management.Std.Utf8.{as_bytes}
use secret_management.Aad.{to_be_bytes, encode, new}

-- `==` of two vectors
abbrev same_bytes : Bytes → Bytes → Bool
same_bytes [] [] = true
same_bytes (b ∷ bs) (c ∷ cs) = eqb b c && same_bytes bs cs
same_bytes _ _ = false

-- the manual construction: the loop that extends `manual`
unfoldable pub extend_manual : List String → Bytes → Bytes
unfolding to_be_bytes
extend_manual [] manual = manual
extend_manual (s ∷ rest) manual =
    extend_manual rest (manual ++ to_be_bytes (length (as_bytes s)) ++ as_bytes s)

abbrev expected : Bytes
expected =
    0 ∷ 0 ∷ 0 ∷ 1 ∷ b'a' ∷ 0 ∷ 0 ∷ 0 ∷ 1 ∷ b'b' ∷ 0 ∷ 0 ∷ 0 ∷ 1 ∷ b'c' ∷ 0 ∷ 0 ∷ 0 ∷ 1 ∷ b'd' ∷ []

unfoldable pub demo : Bool
unfolding extend_manual
demo =
    let enc = encode (new "a" "b" "c" "d") in
    let aad2 = new "tenant1" "encrypt" "primary" "aes256-gcm" in
    let e1 = encode aad2 in
    let e2 = encode aad2 in
    let aad3 = new "tenant1" "encrypt" "primary" "aes256-gcm" in
    let enc3 = encode aad3 in
    let manual = extend_manual ("tenant1" ∷ "encrypt" ∷ "primary" ∷ "aes256-gcm" ∷ []) [] in
    same_bytes enc expected && same_bytes e1 e2 && same_bytes enc3 manual && leb (length enc3) 128
