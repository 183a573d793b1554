-- ===== src/Policy/Laws.antt =====
-- What src/crypto/policy.rs admits, against a list of the approved primitives.
use secret_management.Prelude.{
  String, ◌≡◌, refl, ◌≢◌, ◌↔◌, ◌⊎◌, inl, true, List, [], ◌∷◌, arith, ok, err,
}
use mathlib.Core.Bool.{or-false, or_assoc}
use secret_management.Std.Text.Case.{normalize, normalize_idem}
use secret_management.Std.OneOf.{OneOf, one_of, one_of_iff}
use secret_management.Policy.{
  SecurityClassification, rendah, tinggi, strategis, is_strategis, is_allowed, not_allowed,
  validate_primitive_compliance,
}

-- The primitives that the README names as approved: two ciphers, four names of RSA schemes, two
-- curves, four hashes.
abbrev pub approved : List String
approved =
    "aes-256-gcm" ∷ "chacha20-poly1305" ∷ "rsa-oaep" ∷ "rsa-oaep-3072" ∷ "x25519" ∷ "ed25519"
    ∷ "rsa-pss" ∷ "rsa-pss-3072" ∷ "sha-256" ∷ "sha-512" ∷ "sha3-256" ∷ "blake2b" ∷ []

is_allowed-eq-one_of : (s : String) → is_allowed s ≡ one_of s approved
unfolding is_allowed one_of
is_allowed-eq-one_of s = simp (or-false, or_assoc)

is_allowed_iff : (s : String) → (is_allowed s ≡ true) ↔ OneOf s approved
is_allowed_iff s = rw is_allowed-eq-one_of (one_of_iff s approved)

-- An algorithm passes exactly when the classification is not Strategis or the name, trimmed and in
-- lower case, is one of the approved.
pub validate_iff :
    (algo : String) (level : SecurityClassification)
    → (validate_primitive_compliance algo level ≡ ok tt)
      ↔ ((level ≢ strategis) ⊎ OneOf (normalize algo) approved)
unfolding validate_primitive_compliance is_strategis
validate_iff algo strategis = ground (arith, is_allowed_iff (normalize algo))
validate_iff algo rendah = (λ _. inl (λ e. cc), λ _. refl)
validate_iff algo tinggi = (λ _. inl (λ e. cc), λ _. refl)

-- The envelope code validates a name that it has normalised before: the verdict is the same.
pub validate-normalize :
    (algo : String) (level : SecurityClassification)
    → (validate_primitive_compliance (normalize algo) level ≡ ok tt)
      ↔ (validate_primitive_compliance algo level ≡ ok tt)
unfolding validate_primitive_compliance
validate-normalize algo level = rw normalize_idem (ground arith)

pub validate-cases :
    (algo : String) (level : SecurityClassification)
    → (validate_primitive_compliance algo level ≡ ok tt)
      ⊎ (validate_primitive_compliance algo level ≡ err (not_allowed algo))
unfolding validate_primitive_compliance
validate-cases algo level = ground arith
