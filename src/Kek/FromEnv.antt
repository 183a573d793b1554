-- ===== src/Kek/FromEnv.antt =====
-- How src/crypto/kek_provider.rs builds a store from hexadecimal keys and the environment.
use secret_management.Prelude.{
  String, Bool, ◌&&◌, ◌||◌, not, ◌==◌, none, some, List, [], ◌∷◌, Bytes, if◌then◌else◌, Result, ok,
  err, ◌>>=◌, ok_or, unwrap_or,
}
use secret_management.Std.Map.{HashMap, Env, var, insert, contains_key}
use secret_management.Std.Text.{starts_with, strip_prefix, underscores_to_dashes}
use secret_management.Crates.{Crates}
use secret_management.Kek.{KekStore}

-- The two maps that `from_env` fills side by side.
pub record Former (C : Type 0) : Type 0 where
  pub previous : HashMap C
  pub previous_raw : HashMap Bytes

abbrev pub no_former : {C : Type 0} → Former C
no_former = record { previous = []; previous_raw = [] }

-- `k.starts_with("APP_KEK_") && k != ...`
unfoldable pub is_former_key : String → Bool
is_former_key k =
    starts_with "APP_KEK_" k
    && not (k == "APP_KEK_ID")
    && not (k == "APP_KEK_OLD")
    && not (k == "APP_KEK_OLD_ID")

module _ {C D : Type 0} (x : Crates C D) where
  unfoldable pub pair_from_hex : String → Result String (Bytes × C)
  pair_from_hex hex = do
    bytes ← ok_or "KEK must be 32-byte hex (64 chars)" (x.from_hex hex)
    ok (bytes, x.aes.new bytes)

  unfoldable pub from_hex : String → String → Result String (KekStore C)
  unfolding pair_from_hex
  from_hex id hex = do
    (raw, cipher) ← pair_from_hex hex
    ok (record {
      current_id = id;
      current = cipher;
      current_raw = raw;
      previous = [];
      previous_raw = [];
    })

  -- `previous.insert(id, c); previous_raw.insert(id, r)`
  unfoldable pub add_former : String → Bytes × C → Former C → Former C
  add_former id (r, c) m = record {
    previous = insert id c m.previous;
    previous_raw = insert id r m.previous_raw;
  }

  -- `if let Ok((r, c)) = pair_from_hex(&hex) { ... }`
  unfoldable pub try_former : String → String → Former C → Former C
  unfolding pair_from_hex add_former
  try_former id hex m = elim (pair_from_hex hex) [ ok p ↦ add_former id p m | err _ ↦ m ]

  -- `APP_KEK_OLD` with `APP_KEK_OLD_ID`
  unfoldable pub old_former : Env → String → Former C
  unfolding try_former
  old_former env id = elim (var "APP_KEK_OLD" env) [
    | none ↦ no_former
    | some old_hex ↦
        let old_id = unwrap_or (var "APP_KEK_OLD_ID" env) "previous" in
        if old_id == id then no_former else try_former old_id old_hex no_former
  ]

  -- the id that `APP_KEK_<SUFFIX>` stands for
  unfoldable pub former_id : String → String
  former_id k = underscores_to_dashes (x.to_lowercase (unwrap_or (strip_prefix "APP_KEK_" k) ""))

  -- one round of the loop over the environment
  unfoldable pub scan_var : String → String × String → Former C → Former C
  unfolding try_former former_id is_former_key
  scan_var id (k, v) m =
      let suffix = former_id k in
      if is_former_key k
      then (if suffix == id || contains_key suffix m.previous then m else try_former suffix v m)
      else m

  unfoldable pub scan_vars : String → List (String × String) → Former C → Former C
  unfolding scan_var
  scan_vars id [] m = m
  scan_vars id (kv ∷ vars) m = scan_vars id vars (scan_var id kv m)

  unfoldable pub from_env : Env → Result String (KekStore C)
  unfolding pair_from_hex old_former scan_vars
  from_env env = do
    hex ← ok_or "APP_KEK must be set" (var "APP_KEK" env)
    let id = unwrap_or (var "APP_KEK_ID" env) "primary"
    (raw, kek) ← pair_from_hex hex
    let former = scan_vars id env (old_former env id)
    ok (record {
      current_id = id;
      current = kek;
      current_raw = raw;
      previous = former.previous;
      previous_raw = former.previous_raw;
    })

  -- the module's `load_kek`
  unfoldable pub load_kek : Env → Result String Bytes
  load_kek env = do
    hex ← ok_or "APP_KEK must be set" (var "APP_KEK" env)
    ok_or "APP_KEK must be valid 32-byte hex" (x.from_hex hex)
