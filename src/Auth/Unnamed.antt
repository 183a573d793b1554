-- ===== src/Auth/Unnamed.antt =====
-- The empty key in src/middleware/auth.rs, which a request without an `Authorization` header presents.
use secret_management.Prelude.{
  String, ◌≡◌, refl, sym, ◌∙◌, ◌↔◌, inl, inr, true, Option, none, some, some_inj, List, [], ◌∷◌, ok,
  eq_iff, ◌==◌, Bool-cases, Option-cases, if◌then◌else◌, ne_of_==,
}
use secret_management.Std.Map.{HashMap, Env, var, get, get-insert_self, get-insert_ne}
use secret_management.Std.Text.{trim, split, split_once}
use secret_management.Crates.{Crates}
use secret_management.Http.{Request}
use secret_management.Auth.{Role, both, allows, is_empty, provided_key, require_api_key}
use secret_management.Auth.FromEnv.{parse, add_part, add_parts, listed_keys, single_key, from_env}
use secret_management.Auth.Access.{require_api_key_iff}

-- The text of the role in an entry of `APP_API_KEYS` whose key is blank, such as ":encrypt".
abbrev blank_role : Option (String × String) → Option String
blank_role (some (k, r)) = if trim k == "" then some r else none
blank_role none = none

abbrev later : Option String → Option String → Option String
later first none = first
later first (some r) = some r

-- The text of the role in the last entry whose key is blank.
abbrev pub last_blank : List String → Option String
last_blank [] = none
last_blank (part ∷ parts) = later (blank_role (split_once b':' (trim part))) (last_blank parts)

split_once_nil : split_once b':' "" ≡ none
unfolding split_once
split_once_nil = refl

module _ {C D : Type 0} (x : Crates C D) where
  abbrev role_or : Option Role → Option String → Option Role
  role_or old none = old
  role_or old (some r) = some (parse x r)

  get-add_part :
      (keys : HashMap Role) (part : String)
      → get "" (add_part x keys part)
        ≡ role_or (get "" keys) (blank_role (split_once b':' (trim part)))
  unfolding add_part
  get-add_part keys part = elim (Bool-cases (trim part == "")) [
    | inl e ↦ rw (add_part, e, (eq_iff (trim part) "").0 e, split_once_nil) refl
    | inr e ↦ elim (Option-cases (split_once b':' (trim part))) [
      | inl q ↦
          rw (add_part, e, q) (get-insert_ne (trim part) "" both keys (ne_of_== (trim part) "" e))
      | inr ((k, r), q) ↦ elim (Bool-cases (trim k == "")) [
        | inl blank ↦
            rw (add_part, e, q, blank, (eq_iff (trim k) "").0 blank)
              (get-insert_self "" (parse x r) keys)
        | inr named ↦
            rw (add_part, e, q, named)
              (get-insert_ne (trim k) "" (parse x r) keys (ne_of_== (trim k) "" named))
      ]
    ]
  ]

  role_or-later :
      (old : Option Role) (first second : Option String)
      → role_or (role_or old first) second ≡ role_or old (later first second)
  role_or-later old none none = refl
  role_or-later old (some r) none = refl
  role_or-later old none (some r) = refl
  role_or-later old (some q) (some r) = refl

  get-add_parts :
      (keys : HashMap Role) (parts : List String)
      → get "" (add_parts x keys parts) ≡ role_or (get "" keys) (last_blank parts)
  unfolding add_parts
  get-add_parts keys [] = refl
  get-add_parts keys (part ∷ parts) =
      let first = blank_role (split_once b':' (trim part)) in
      get-add_parts (add_part x keys part) parts
      ∙ rw (get-add_part keys part) (role_or-later (get "" keys) first (last_blank parts))

  no_key : get {V = Role} "" [] ≡ none
  unfolding get
  no_key = refl

  abbrev listed_blank : Option String → Option String
  listed_blank none = none
  listed_blank (some val) = last_blank (split b',' val)

  -- `APP_API_KEY` gives no empty key.
  get-single_key : (env : Env) → get "" (single_key x env) ≡ none
  unfolding single_key get
  get-single_key env = elim (Option-cases (var "APP_API_KEY" env)) [
    | inl e ↦ rw (single_key, e) refl
    | inr (k, e) ↦ elim (Bool-cases (k == "")) [
      | inl blank ↦ rw (single_key, e, blank) refl
      | inr filled ↦ rw (single_key, e, filled) (get-insert_ne k "" both [] (ne_of_== k "" filled))
    ]
  ]

  get-or_single :
      (env : Env) (keys : HashMap Role)
      → get "" (if is_empty keys then single_key x env else keys) ≡ get "" keys
  unfolding get
  get-or_single env [] = get-single_key env
  get-or_single env (kv ∷ keys) = refl

  get-listed_keys :
      (env : Env)
      → get "" (listed_keys x env) ≡ role_or none (listed_blank (var "APP_API_KEYS" env))
  unfolding listed_keys
  get-listed_keys env = elim (Option-cases (var "APP_API_KEYS" env)) [
    | inl e ↦ rw (listed_keys, e) no_key
    | inr (val, e) ↦ rw (listed_keys, e) (get-add_parts [] (split b',' val) ∙ rw no_key refl)
  ]

  get-from_env :
      (env : Env)
      → get "" (from_env x env).keys ≡ role_or none (listed_blank (var "APP_API_KEYS" env))
  unfolding from_env
  get-from_env env = get-or_single env (listed_keys x env) ∙ get-listed_keys env

  role_or_iff :
      (found : Option String) (role : Role)
      → (role_or none (listed_blank found) ≡ some role) ↔ (
          (val : String) × (r : String) × (found ≡ some val)
          × (last_blank (split b',' val) ≡ some r)
          × (role ≡ parse x r))
  role_or_iff none role = (λ e. cc, λ (val, r, e, _, _). cc)
  role_or_iff (some v) role = (
    λ e. elim (Option-cases (last_blank (split b',' v))) [
      | inl q ↦ cc (rw q at e)
      | inr (r, q) ↦ (v, r, refl, q, sym (some_inj (rw q at e)))
    ],
    λ (val, r, e, q, h). rw (some_inj e, q, h) refl,
  )

  -- A request without an `Authorization` header passes exactly if `APP_API_KEYS` has an entry with a
  -- blank key, such as ":encrypt", and the role in the last such entry allows the path; it passes with
  -- that role. `APP_API_KEY` never lets it pass.
  pub without_header_iff :
      (env : Env) (req : Request) (role : Role)
      → req.authorization ≡ none
      → (require_api_key (from_env x env) req ok ≡ ok role) ↔ (
          (val : String) × (r : String) × (var "APP_API_KEYS" env ≡ some val)
          × (last_blank (split b',' val) ≡ some r)
          × (role ≡ parse x r)
          × (allows role req.path ≡ true))
  unfolding provided_key
  without_header_iff env req role absent =
      let listed = role_or_iff (var "APP_API_KEYS" env) role in
      let passes = require_api_key_iff (from_env x env) req role in
      (
        λ e.
            let (known, allowed) = passes.0 e in
            let (val, r, set, last, same) =
              listed.0 (sym (get-from_env env) ∙ (rw absent at known)) in
            (val, r, set, last, same, allowed),
        λ (val, r, set, last, same, allowed).
            passes.1 (rw absent (get-from_env env ∙ listed.1 (val, r, set, last, same)), allowed),
      )
