-- ===== src/Aad/Injective.antt =====
-- The encoding of src/crypto/aad.rs is as long as it should be and loses nothing.
use Prim.Native.String.{len}
use secret_management.Prelude.{
  ℕ, ◌+◌, ◌^◌, ◌<◌, String, ◌≡◌, refl, sym, ◌∙◌, [], ◌∷◌, ◌++◌, Bytes, length, length-append,
  append_inj, arith,
}
use mathlib.Core.List.{append_assoc}
use secret_management.Std.Utf8.{as_bytes, as_bytes_inj, length-as_bytes}
use secret_management.Aad.{CanonicalAad, to_be_bytes, encode_field, encode_fields, encode}

-- The lengths that a `u32` holds.
abbrev pub Fits : String → Type 0
Fits s = len s < 2 ^ 32

abbrev pub AllFit : CanonicalAad → Type 0
AllFit a = Fits a.tenant_id × Fits a.purpose × Fits a.key_id × Fits a.algorithm

to_be_bytes_inj : (m n : ℕ) → m < 2 ^ 32 → n < 2 ^ 32 → to_be_bytes m ≡ to_be_bytes n → m ≡ n
unfolding to_be_bytes
to_be_bytes_inj m n p q e = ground arith

length-to_be_bytes : (n : ℕ) → length (to_be_bytes n) ≡ 4
unfolding to_be_bytes
length-to_be_bytes n = refl

encode_field_inj :
    (s t : String) (x y : Bytes)
    → Fits s
    → Fits t
    → encode_field s ++ x ≡ encode_field t ++ y
    → (s ≡ t) × (x ≡ y)
unfolding encode_field to_be_bytes
encode_field_inj s t x y p q e =
    let (same_length, rest) =
      append_inj (to_be_bytes (length (as_bytes s))) (to_be_bytes (length (as_bytes t)))
        (as_bytes s ++ x) (as_bytes t ++ y) refl
        (sym (append_assoc (to_be_bytes (length (as_bytes s))) (as_bytes s) x)
          ∙ e
          ∙ append_assoc (to_be_bytes (length (as_bytes t))) (as_bytes t) y) in
    let n : length (as_bytes s) ≡ length (as_bytes t) =
      to_be_bytes_inj _ _ (rw length-as_bytes p) (rw length-as_bytes q) same_length in
    let (same_bytes, same_rest) = append_inj (as_bytes s) (as_bytes t) x y n rest in
    (as_bytes_inj s t same_bytes, same_rest)

length-encode_field : (s : String) → length (encode_field s) ≡ 4 + len s
unfolding encode_field
length-encode_field s = omega (
  arith,
  length-append (to_be_bytes (length (as_bytes s))) (as_bytes s),
  length-to_be_bytes (length (as_bytes s)),
  length-as_bytes s,
)

-- The encoding takes, for each of the four fields, four bytes and the bytes of the field.
pub length-encode :
    (a : CanonicalAad)
    → length (encode a) ≡ 16 + len a.tenant_id + len a.purpose + len a.key_id + len a.algorithm
unfolding encode
length-encode a = omega (
  arith,
  length-append (encode_field a.tenant_id)
      (encode_fields (a.purpose ∷ a.key_id ∷ a.algorithm ∷ [])),
  length-append (encode_field a.purpose) (encode_fields (a.key_id ∷ a.algorithm ∷ [])),
  length-append (encode_field a.key_id) (encode_fields (a.algorithm ∷ [])),
  length-append (encode_field a.algorithm) [],
  length-encode_field a.tenant_id,
  length-encode_field a.purpose,
  length-encode_field a.key_id,
  length-encode_field a.algorithm,
)

-- Records whose fields are shorter than 4 GiB have the same encoding only if they are the same.
pub encode_inj : (a b : CanonicalAad) → AllFit a → AllFit b → encode a ≡ encode b → a ≡ b
unfolding encode
encode_inj a b p q e =
    let (t, e1) = encode_field_inj a.tenant_id b.tenant_id _ _ p.0 q.0 e in
    let (u, e2) = encode_field_inj a.purpose b.purpose _ _ p.1 q.1 e1 in
    let (k, e3) = encode_field_inj a.key_id b.key_id _ _ p.2 q.2 e2 in
    let (g, _) = encode_field_inj a.algorithm b.algorithm _ _ p.3 q.3 e3 in
    λ i. record { tenant_id = t i; purpose = u i; key_id = k i; algorithm = g i }
