-- ===== src/Tests/Short.antt =====
-- Crates with short texts for the runs of src/api: the cipher writes a mark in front of the message.
-- They keep the laws of `IsLawful`, and no others.
use secret_management.Prelude.{
  ℕ, zero, suc, ◌++◌, ◌∙◌, length, subst, refl, sym, ap, true, false, eqb, Option, none, some, [],
  ◌∷◌, Bytes, IsBytes, arith, some_inj,
}
use secret_management.Crates.{Aead, Crates, IsLawfulAead, IsLawful, IsTagged, IsSized}
use secret_management.Tests.Toy.Base64.{
  encode64, decode64, decode64-encode64, decode64-IsBytes, len-encode64,
}
use secret_management.Tests.Toy.{toy, copies, length-copies, copies-IsBytes, toy-IsLawful}

abbrev unmark : Bytes → Option Bytes
unmark [] = none
unmark (b ∷ bs) = elim (eqb b 0) [ true ↦ some bs | false ↦ none ]

abbrev mark_aead : Aead Bytes
mark_aead = record {
  new = λ key. key;
  encrypt = λ key nonce msg aad. some (0 ∷ msg);
  decrypt = λ key nonce c aad. unmark c;
}

mark_aead-IsLawfulAead : IsLawfulAead mark_aead
mark_aead-IsLawfulAead = record {
  opens = λ key nonce msg aad c e. ap unmark (sym (some_inj e));
  ciphertext_IsBytes = λ key nonce msg aad c h e. subst IsBytes (some_inj e) (omega arith, h);
  seals = λ key nonce msg aad p q r s. (0 ∷ msg, refl);
}

abbrev pub short : Crates Bytes Bytes
short = record toy { aes = mark_aead; chacha = mark_aead; random = λ n i. copies 1 n }

pub short-IsLawful : IsLawful short
short-IsLawful = record {
  aes = mark_aead-IsLawfulAead;
  chacha = mark_aead-IsLawfulAead;
  b64_decode-encode = toy-IsLawful.b64_decode-encode;
  length-random = λ n i. length-copies 1 n;
  random-IsBytes = λ n i. copies-IsBytes 1 n (omega arith);
  b64_decode-IsBytes = toy-IsLawful.b64_decode-IsBytes;
  length-from_hex = toy-IsLawful.length-from_hex;
}

-- Crates with the lengths of the real ones: the mark has 16 bytes, and the texts are Base64.
abbrev untag : ℕ → Bytes → Option Bytes
untag zero b = some b
untag (suc n) [] = none
untag (suc n) (x ∷ b) = untag n b

abbrev tag_aead : Aead Bytes
tag_aead = record {
  new = λ key. key;
  encrypt = λ key nonce msg aad. some (copies 0 16 ++ msg);
  decrypt = λ key nonce c aad. untag 16 c;
}

tagged-IsBytes : (n : ℕ) (b : Bytes) → IsBytes b → IsBytes (copies 0 n ++ b)
tagged-IsBytes zero b h = h
tagged-IsBytes (suc n) b h = (omega arith, tagged-IsBytes n b h)

tag_aead-IsLawfulAead : IsLawfulAead tag_aead
tag_aead-IsLawfulAead = record {
  opens = λ key nonce msg aad c e. ap (untag 16) (sym (some_inj e));
  ciphertext_IsBytes =
      λ key nonce msg aad c h e. subst IsBytes (some_inj e) (tagged-IsBytes 16 msg h);
  seals = λ key nonce msg aad p q r s. (copies 0 16 ++ msg, refl);
}

tag_aead-IsTagged : IsTagged tag_aead
tag_aead-IsTagged = record {
  length-encrypt = λ key nonce msg aad c e. ap length (sym (some_inj e)) ∙ omega arith;
}

abbrev pub full : Crates Bytes Bytes
full = record short {
  aes = tag_aead;
  chacha = tag_aead;
  b64_encode = encode64;
  b64_decode = decode64;
}

pub full-IsLawful : IsLawful full
full-IsLawful = record {
  aes = tag_aead-IsLawfulAead;
  chacha = tag_aead-IsLawfulAead;
  b64_decode-encode = decode64-encode64;
  length-random = λ n i. length-copies 1 n;
  random-IsBytes = λ n i. copies-IsBytes 1 n (omega arith);
  b64_decode-IsBytes = decode64-IsBytes;
  length-from_hex = toy-IsLawful.length-from_hex;
}

pub full-IsSized : IsSized full
full-IsSized = record {
  aes = tag_aead-IsTagged;
  chacha = tag_aead-IsTagged;
  len-b64_encode = len-encode64;
}
