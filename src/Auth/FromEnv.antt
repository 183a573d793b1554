-- ===== src/Auth/FromEnv.antt =====
-- `Role::parse` and `ApiKeyStore::from_env` of src/middleware/auth.rs.
use secret_management.Prelude.{String, ◌==◌, none, some, List, [], ◌∷◌, if◌then◌else◌}
use secret_management.Std.Text.{trim, split, split_once}
use secret_management.Std.Map.{HashMap, Env, var, insert}
use secret_management.Crates.{Crates}
use secret_management.Auth.{Role, both, role_of, ApiKeyStore, is_empty}

module _ {C D : Type 0} (x : Crates C D) where
  -- `Role::parse`
  unfoldable pub parse : String → Role
  parse s = role_of (x.to_lowercase (trim s))

  -- one part of `APP_API_KEYS`
  unfoldable pub add_part : HashMap Role → String → HashMap Role
  unfolding parse
  add_part keys raw =
      let part = trim raw in
      if part == "" then keys else elim (split_once b':' part) [
        | some (k, r) ↦ insert (trim k) (parse r) keys
        | none ↦ insert part both keys
      ]

  unfoldable pub add_parts : HashMap Role → List String → HashMap Role
  unfolding add_part
  add_parts keys [] = keys
  add_parts keys (part ∷ parts) = add_parts (add_part keys part) parts

  unfoldable pub listed_keys : Env → HashMap Role
  unfolding add_parts
  listed_keys env = elim (var "APP_API_KEYS" env) [
    | none ↦ []
    | some val ↦ add_parts [] (split b',' val)
  ]

  -- `APP_API_KEY`, where `APP_API_KEYS` gave no key
  unfoldable pub single_key : Env → HashMap Role
  single_key env = elim (var "APP_API_KEY" env) [
    | none ↦ []
    | some k ↦ if k == "" then [] else insert k both []
  ]

  unfoldable pub from_env : Env → ApiKeyStore
  unfolding listed_keys single_key
  from_env env =
      let keys = listed_keys env in record { keys = if is_empty keys then single_key env else keys }
