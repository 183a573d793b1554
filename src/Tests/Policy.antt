-- ===== src/Tests/Policy.antt =====
-- Tests of the policy.
use secret_management.Policy.Laws.{approved, validate_iff}
use secret_management.Std.OneOf.{OneOf}
use secret_management.Prelude.{◌↔◌, ◌⊎◌, ◌≢◌, ◌≡◌, refl, ok, err}
use secret_management.Policy.{
  validate_primitive_compliance, strategis, rendah, is_strategis, is_allowed, not_allowed,
}
use secret_management.Std.Text.{trim, is_whitespace, lower_char, to_ascii_lowercase}
use secret_management.Std.Text.Case.{normalize}

accepts_spaces_and_case : validate_primitive_compliance " AES-256-gcm\t" strategis ≡ ok tt
unfolding validate_primitive_compliance is_strategis is_allowed normalize trim is_whitespace
    lower_char to_ascii_lowercase
accepts_spaces_and_case = refl

rejects_md5 : validate_primitive_compliance "md5" strategis ≡ err (not_allowed "md5")
unfolding validate_primitive_compliance is_strategis is_allowed normalize trim is_whitespace
    lower_char to_ascii_lowercase
rejects_md5 = refl

permissive : validate_primitive_compliance "md5" rendah ≡ ok tt
unfolding validate_primitive_compliance is_strategis
permissive = refl

validate_iff_example :
    (validate_primitive_compliance "SHA-256" strategis ≡ ok tt)
    ↔ ((strategis ≢ strategis) ⊎ OneOf (normalize "SHA-256") approved)
validate_iff_example = validate_iff "SHA-256" strategis
