-- ===== src/Auth/Access.antt =====
-- Whom src/middleware/auth.rs lets through, and with what answer it turns others away.
use secret_management.Prelude.{
  String, ◌≡◌, refl, ◌↔◌, ◌⊎◌, inl, inr, true, false, none, some, List, [], ◌∷◌, arith, Result, ok,
  err, ◌>>=◌, Bool-cases, Option-cases,
}
use secret_management.Std.Map.{HashMap, Env, var, get}
use mathlib.Core.Bool.{or-false, or_assoc}
use secret_management.Std.OneOf.{OneOf, one_of, one_of_iff}
use secret_management.Crates.{Crates}
use secret_management.Http.{Request, StatusCode, unauthorized, forbidden, internal_server_error}
use secret_management.Auth.{
  Role, encrypt_only, decrypt_only, allows, ApiKeyStore, is_empty, provided_key, require_api_key,
}
use secret_management.Auth.FromEnv.{listed_keys, single_key, from_env}
use secret_management.Auth.Compare.{role_for-eq-get}

-- The code before `next` runs decides alone.
pub require_api_key-bind :
    {R : Type 0} (st : ApiKeyStore) (req : Request) (next : Role → Result StatusCode R)
    → require_api_key st req next ≡ (require_api_key st req ok >>= next)
unfolding require_api_key
require_api_key-bind st req next = ground arith

is_empty_of_get :
    (k : String) (role : Role) (keys : HashMap Role)
    → get k keys ≡ some role
    → is_empty keys ≡ false
unfolding get
is_empty_of_get k role [] e = cc
is_empty_of_get k role (x ∷ keys) e = refl

-- A request passes with a role exactly if the key that it presents has that role, and the role
-- allows the path.
pub require_api_key_iff :
    (st : ApiKeyStore) (req : Request) (role : Role)
    → (require_api_key st req ok ≡ ok role)
      ↔ ((get (provided_key req) st.keys ≡ some role) × (allows role req.path ≡ true))
unfolding require_api_key
require_api_key_iff st req role =
    ground (
      arith,
      role_for-eq-get st (provided_key req),
      is_empty_of_get (provided_key req) role st.keys,
    )

list_cases : (keys : HashMap Role) → (keys ≡ []) ⊎ (is_empty keys ≡ false)
list_cases [] = inl refl
list_cases (x ∷ keys) = inr refl

-- What the status of a refusal tells.
abbrev pub Refusal : ApiKeyStore → Request → StatusCode → Type 0
Refusal st req code =
    ((code ≡ internal_server_error) × (st.keys ≡ []))
    ⊎ ((code ≡ unauthorized) × (get (provided_key req) st.keys ≡ none))
    ⊎ ((role : Role) × (code ≡ forbidden)
        × (get (provided_key req) st.keys ≡ some role)
        × (allows role req.path ≡ false))

-- A request that is refused with 500 finds no key configured; with 401 it presents no configured
-- key; with 403 it presents a key whose role does not allow the path. There is no other refusal.
pub require_api_key-Refusal :
    (st : ApiKeyStore) (req : Request) (code : StatusCode)
    → require_api_key st req ok ≡ err code
    → Refusal st req code
require_api_key-Refusal st req code e =
    let key = provided_key req in
    elim (list_cases st.keys) [
      | inl none_configured ↦ inl (unfold require_api_key in ground arith, none_configured)
      | inr some_key ↦ elim (Option-cases (get key st.keys)) [
        | inl unknown ↦
            inr (inl (unfold require_api_key in ground (arith, role_for-eq-get st key), unknown))
        | inr (role, known) ↦ elim (Bool-cases (allows role req.path)) [
          | inr denied ↦ inr (
              inr (
                role,
                unfold require_api_key in ground (arith, role_for-eq-get st key),
                known,
                denied,
              ))
          | inl allowed ↦ absurd (unfold require_api_key in ground (arith, role_for-eq-get st key))
        ]
      ]
    ]

abbrev encrypt_paths : List String
encrypt_paths = "/encrypt" ∷ "/v1/crypto/encrypt" ∷ "/v1/crypto/sign" ∷ "/v1/crypto/hash" ∷ []

allows_encrypt_only : (path : String) → allows encrypt_only path ≡ true → OneOf path encrypt_paths
unfolding allows one_of
allows_encrypt_only path h = (one_of_iff path encrypt_paths).0 (simp (← or_assoc, or-false) h)

-- No path is open to both kinds of restricted keys.
pub allows_disjoint :
    (path : String) → allows encrypt_only path ≡ true → allows decrypt_only path ≡ false
unfolding allows
allows_disjoint path h = by_path (allows_encrypt_only path h)
  where
    by_path : OneOf path encrypt_paths → allows decrypt_only path ≡ false
    by_path (inl e) = rw e
    by_path (inr (inl e)) = rw e
    by_path (inr (inr (inl e))) = rw e
    by_path (inr (inr (inr (inl e)))) = rw e
    by_path (inr (inr (inr (inr none_left)))) = elim none_left [ ]

-- With neither variable set there is no key, and every request is answered 500.
pub from_env_fails_closed :
    {C D R : Type 0} (x : Crates C D) (env : Env) (req : Request)
    (next : Role → Result StatusCode R)
    → var "APP_API_KEYS" env ≡ none
    → var "APP_API_KEY" env ≡ none
    → require_api_key (from_env x env) req next ≡ err internal_server_error
unfolding require_api_key from_env
from_env_fails_closed x env req next p q =
    rw (p, from_env, listed_keys, q, single_key, require_api_key) refl
