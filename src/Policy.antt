-- ===== src/Policy.antt =====
-- src/crypto/policy.rs: which primitives a classification admits.
pub mod Laws
use Prim.Native.String.{◌++◌ as ◌<>◌}
use secret_management.Prelude.{
  String, Bool, true, false, ◌||◌, ◌==◌, if◌then◌else◌, Result, ok, err, refl, ◌≡◌,
}
use secret_management.Std.Text.{trim}
use secret_management.Std.Text.Case.{normalize}
use secret_management.Errors.{CryptoError, policy_violation}

pub data SecurityClassification : Type 0 where
  rendah tinggi strategis : SecurityClassification

pub record Policy : Type 0 where
  pub classification : SecurityClassification
  pub purpose : String
  pub tenant_id : String

-- `level != SecurityClassification::Strategis`, negated
unfoldable pub is_strategis : SecurityClassification → Bool
is_strategis strategis = true
is_strategis _ = false

-- the patterns of `matches!`
unfoldable pub is_allowed : String → Bool
is_allowed s =
    s == "aes-256-gcm"
    || s == "chacha20-poly1305"
    || s == "rsa-oaep"
    || s == "rsa-oaep-3072"
    || s == "x25519"
    || s == "ed25519"
    || s == "rsa-pss"
    || s == "rsa-pss-3072"
    || s == "sha-256"
    || s == "sha-512"
    || s == "sha3-256"
    || s == "blake2b"

unfoldable pub not_allowed : String → CryptoError
not_allowed algo =
    policy_violation ("algorithm '" <> trim algo <> "' not allowed for Strategis classification")

unfoldable pub validate_primitive_compliance :
    String → SecurityClassification → Result CryptoError (Unit {0})
validate_primitive_compliance algo level =
    if is_strategis level
    then (if is_allowed (normalize algo) then ok tt else err (not_allowed algo))
    else ok tt
