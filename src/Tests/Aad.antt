-- ===== src/Tests/Aad.antt =====
-- Runs of src/crypto/aad.rs.
use secret_management.Prelude.{true, ◌≡◌, refl, arith}
use secret_management.Aad.{CanonicalAad, encode, encode_field, to_be_bytes}
use secret_management.Aad.Demo.{demo, extend_manual}
use secret_management.Std.Utf8.{as_bytes}
use secret_management.Aad.Injective.{encode_inj}

abbrev context : CanonicalAad
context = record { tenant_id = "t1"; purpose = "pay"; key_id = "k1"; algorithm = "aes-256-gcm" }

encode_inj_example : context ≡ context
encode_inj_example =
    encode_inj context context (omega arith, omega arith, omega arith, omega arith)
      (omega arith, omega arith, omega arith, omega arith) refl

demo_passes : demo ≡ true
unfolding demo extend_manual encode encode_field to_be_bytes as_bytes
demo_passes = refl
