-- ===== src/Auth.antt =====
-- src/middleware/auth.rs: API keys with roles. The environment that fills the store is read in the
-- module `FromEnv`.
pub mod FromEnv
pub mod Compare
pub mod Access
pub mod Unnamed
use Prim.Native.Nat.{bit_or, bit_xor}
use Prim.Native.String.{len}
use secret_management.Prelude.{
  ℕ, String, Bool, true, false, not, ◌||◌, ◌==◌, eqb, Option, none, some, List, [], ◌∷◌, Bytes,
  if◌then◌else◌, Result, ok, err, ◌>>=◌, ◌>>◌, ok_or, unwrap_or, and_then, fail_if,
}
use secret_management.Std.Utf8.{as_bytes}
use secret_management.Std.Text.{trim, strip_prefix}
use secret_management.Std.Map.{HashMap}
use secret_management.Crates.{Crates}
use secret_management.Http.{Request, StatusCode, unauthorized, forbidden, internal_server_error}

pub data Role : Type 0 where
  both encrypt_only decrypt_only : Role

-- `Role::allows`
unfoldable pub allows : Role → String → Bool
allows both path = true
allows encrypt_only path =
    path == "/encrypt"
    || path == "/v1/crypto/encrypt"
    || path == "/v1/crypto/sign"
    || path == "/v1/crypto/hash"
allows decrypt_only path =
    path == "/decrypt" || path == "/v1/crypto/decrypt" || path == "/v1/crypto/verify"

-- `Role::parse`, on the text that is trimmed and in lower case
unfoldable pub role_of : String → Role
role_of s =
    if s == "encrypt" || s == "enc" || s == "e"
    then encrypt_only
    else if s == "decrypt" || s == "dec" || s == "d"
    then decrypt_only
    else both

pub record ApiKeyStore : Type 0 where
  pub keys : HashMap Role

-- the loop of `ct_eq` over the pairs of bytes
unfoldable pub diff_bytes : ℕ → Bytes → Bytes → ℕ
diff_bytes diff (x ∷ xs) (y ∷ ys) = diff_bytes (bit_or diff (bit_xor x y)) xs ys
diff_bytes diff _ _ = diff

unfoldable pub ct_eq : String → String → Bool
unfolding diff_bytes
ct_eq a b =
    if not (eqb (len a) (len b)) then false else eqb (diff_bytes 0 (as_bytes a) (as_bytes b)) 0

-- the loop of `role_for`
unfoldable pub find_role : String → HashMap Role → Option Role
find_role provided [] = none
find_role provided ((k, role) ∷ keys) =
    let rest = find_role provided keys in if ct_eq provided k then some role else rest

unfoldable pub role_for : ApiKeyStore → String → Option Role
unfolding find_role
role_for st provided = find_role provided st.keys

abbrev pub is_empty : {A : Type 0} → List A → Bool
is_empty [] = true
is_empty (x ∷ xs) = false

-- The key that a request presents; the empty one, if there is none.
unfoldable pub provided_key : Request → String
provided_key req = unwrap_or (and_then req.authorization (strip_prefix "Bearer ")) ""

-- `require_api_key`; `next` has the role that is put among the request's extensions.
unfoldable pub require_api_key :
    {R : Type 0} → ApiKeyStore → Request → (Role → Result StatusCode R) → Result StatusCode R
require_api_key st req next = do
  fail_if (is_empty st.keys) internal_server_error
  role ← ok_or unauthorized (role_for st (provided_key req))
  fail_if (not (allows role req.path)) forbidden
  next role
