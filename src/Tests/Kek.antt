-- ===== src/Tests/Kek.antt =====
-- Runs of src/crypto/kek_provider.rs.
use secret_management.Prelude.{◌≡◌, ◌≢◌, refl, some, [], ◌∷◌, Bytes, ok, unwrap_or, ne_of_==}
use secret_management.Std.Map.{Env, var, get}
use secret_management.Kek.{KekStore, resolve_raw}
use secret_management.Kek.FromEnv.{from_env}
use secret_management.Kek.Invariant.{IsConsistent, from_env-IsConsistent}
use secret_management.Kek.Rotation.{from_env_rotates}
use secret_management.Tests.Toy.{toy, toy-IsLawful, hex_a, hex_b, key_a, key_b}

-- After a rotation: the old key under the name "previous", and one more former key.
abbrev environment : Env
environment =
    ("APP_KEK", hex_a) ∷ ("APP_KEK_OLD", hex_b) ∷ ("APP_KEK_ID", "k2") ∷ ("APP_KEK_K_0", hex_b) ∷ []

set_kek : var "APP_KEK" environment ≡ some hex_a
unfolding get
set_kek = refl

set_old : var "APP_KEK_OLD" environment ≡ some hex_b
unfolding get
set_old = refl

other_ids :
    unwrap_or (var "APP_KEK_OLD_ID" environment) "previous"
    ≢ unwrap_or (var "APP_KEK_ID" environment) "primary"
unfolding get
other_ids = ne_of_== "previous" "k2" refl

-- The store after the rotation.
rotated :
    (st : KekStore Bytes) × (from_env toy environment ≡ ok st)
    × (resolve_raw st (unwrap_or (var "APP_KEK_ID" environment) "primary") ≡ some key_a)
    × (resolve_raw st (unwrap_or (var "APP_KEK_OLD_ID" environment) "previous") ≡ some key_b)
rotated =
    from_env_rotates toy toy-IsLawful environment hex_a hex_b key_a key_b set_kek refl set_old refl
      other_ids

from_env_rotates_example :
    (st : KekStore Bytes) × (from_env toy environment ≡ ok st)
    × (resolve_raw st (unwrap_or (var "APP_KEK_ID" environment) "primary") ≡ some key_a)
    × (resolve_raw st (unwrap_or (var "APP_KEK_OLD_ID" environment) "previous") ≡ some key_b)
from_env_rotates_example =
    from_env_rotates toy toy-IsLawful environment hex_a hex_b key_a key_b set_kek refl set_old refl
      other_ids

-- It is consistent.
rotated-IsConsistent : IsConsistent toy rotated.0
rotated-IsConsistent = from_env-IsConsistent toy toy-IsLawful environment rotated.0 rotated.1

from_env-IsConsistent_example : IsConsistent toy rotated.0
from_env-IsConsistent_example =
    from_env-IsConsistent toy toy-IsLawful environment rotated.0 rotated.1

abbrev store : KekStore Bytes
store = record {
  current_id = "k2";
  current = key_a;
  current_raw = key_a;
  previous = ("k-0", key_b) ∷ [];
  previous_raw = ("k-0", key_b) ∷ [];
}
