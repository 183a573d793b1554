-- ===== src/Aad.antt =====
-- src/crypto/aad.rs: the associated data that binds a wrapped key to its context.
pub mod Injective
pub mod Demo
use secret_management.Prelude.{
  ℕ, ◌/◌, ◌%◌, ◌^◌, String, List, [], ◌∷◌, ◌++◌, Bytes, length, ◌≡◌, refl,
}
use secret_management.Std.Utf8.{as_bytes}

pub record CanonicalAad : Type 0 where
  pub tenant_id : String
  pub purpose : String
  pub key_id : String
  pub algorithm : String

-- `CanonicalAad::new`
abbrev pub new : String → String → String → String → CanonicalAad
new tenant_id purpose key_id algorithm = record {
  tenant_id = tenant_id;
  purpose = purpose;
  key_id = key_id;
  algorithm = algorithm;
}

-- `(n as u32).to_be_bytes()`; the cast keeps the low 32 bits
unfoldable pub to_be_bytes : ℕ → Bytes
to_be_bytes n =
    let w = n % 2 ^ 32 in (w / 2 ^ 24) ∷ (w / 2 ^ 16 % 256) ∷ (w / 2 ^ 8 % 256) ∷ (w % 256) ∷ []

-- one round of the loop
unfoldable pub encode_field : String → Bytes
unfolding to_be_bytes
encode_field field = to_be_bytes (length (as_bytes field)) ++ as_bytes field

-- the loop over the fields, on what is pushed after `out`
unfoldable pub encode_fields : List String → Bytes
encode_fields [] = []
encode_fields (field ∷ fields) = encode_field field ++ encode_fields fields

unfoldable pub encode : CanonicalAad → Bytes
unfolding encode_fields
encode a = encode_fields (a.tenant_id ∷ a.purpose ∷ a.key_id ∷ a.algorithm ∷ [])
