-- ===== src/Tests/Signing.antt =====
-- Crates for the runs of the signatures in src/: keys that are their seeds, or numbers; a signature
-- repeats the key and hides nothing. They keep the laws of `IsLawfulSigning`.
use secret_management.Prelude.{
  ℕ, ◌%◌, ◌≡◌, Bool, true, false, eqb, some, [], ◌∷◌, Bytes, IsBytes, length, arith, some_inj,
  subst,
}
use secret_management.Crates.{SigningCrates, IsLawfulSigning}
use secret_management.Tests.Toy.{copies, length-copies, copies-IsBytes}

abbrev is_byte_of : ℕ → Bytes → Bool
is_byte_of n [] = false
is_byte_of n (b ∷ bs) = eqb b (n % 256)

abbrev pub signing : SigningCrates Bytes ℕ
signing = record {
  sha256 = λ b. b;
  sha512 = λ b. 2 ∷ b;
  sha3_256 = λ b. 3 ∷ b;
  blake2b512 = λ b. 4 ∷ b;
  from_bytes = λ b. b;
  ed25519_sign = λ key msg. copies (length msg % 256) 64;
  ed25519_verify = λ key msg sig. is_byte_of (length msg) sig;
  rsa_new = λ i. i;
  rsa_sign = λ key i digest. some (key % 256 ∷ i % 256 ∷ []);
  rsa_verify = λ key digest sig. is_byte_of key sig;
}

pub signing-IsLawfulSigning : IsLawfulSigning signing
signing-IsLawfulSigning = record {
  ed25519_verify-sign = λ key msg. ground arith;
  length-ed25519_sign = λ key msg. length-copies (length msg % 256) 64;
  ed25519_sign-IsBytes = λ key msg. copies-IsBytes (length msg % 256) 64 (omega arith);
  rsa_verify-sign = λ key i digest sig e.
      subst (λ (c : Bytes). is_byte_of key c ≡ true) (some_inj e) (ground arith);
  rsa_sign-IsBytes = λ key i digest sig e. subst IsBytes (some_inj e) (omega arith);
}
