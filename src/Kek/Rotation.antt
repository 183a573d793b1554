-- ===== src/Kek/Rotation.antt =====
-- Key rotation in src/crypto/kek_provider.rs: an old key stays available under its id.
use text.Mathlib.TextPositions.{eq_refl}
use secret_management.Prelude.{
  ==_of_ne, String, ◌≡◌, ◌≢◌, some, List, [], ◌∷◌, ◌||◌, Bytes, arith, ◌==◌, ok, unwrap_or,
  Bool-cases, Option-cases, ◌∙◌, inl, inr,
}
use secret_management.Std.Map.{Env, var, get, get-insert_ne, get-insert_self, contains_key}
use secret_management.Crates.{Crates, IsLawful}
use secret_management.Kek.{KekStore, resolve_raw}
use secret_management.Kek.FromEnv.{
  Former, pair_from_hex, try_former, old_former, is_former_key, former_id, scan_var, scan_vars,
  from_env,
}
use secret_management.Kek.Invariant.{
  IsPaired, store_of, from_env_lem, scan_var-IsPaired, old_former-IsPaired,
}

module _ {C D : Type 0} (x : Crates C D) (lawful : IsLawful x) where
  -- The scan adds keys and replaces none.
  get-try_former :
      (j k hex : String) (b : Bytes) (m : Former C)
      → k ≢ j
      → get j m.previous_raw ≡ some b
      → get j (try_former x k hex m).previous_raw ≡ some b
  unfolding try_former
  get-try_former j k hex b m other e = elim (Option-cases (x.from_hex hex)) [
    | inl bad ↦ rw (bad, try_former, pair_from_hex) e
    | inr (c, good) ↦
        rw (good, try_former, pair_from_hex) (get-insert_ne k j c m.previous_raw other ∙ e)
  ]

  get-scan_var :
      (id j : String) (b : Bytes) (kv : String × String) (m : Former C)
      → IsPaired x id m
      → get j m.previous_raw ≡ some b
      → get j (scan_var x id kv m).previous_raw ≡ some b
  unfolding scan_var
  get-scan_var id j b (k, v) m h e = elim (Bool-cases (is_former_key k)) [
    | inr other ↦ rw (other, scan_var) e
    | inl former ↦
        elim (Bool-cases (former_id x k == id || contains_key (former_id x k) m.previous)) [
          | inl taken ↦ rw (former, taken, scan_var) e
          | inr free ↦
              rw (former, free, scan_var)
                (get-try_former j (former_id x k) v b m
                  (λ p. ground (arith, p, rw (← p) at e, h.same_keys (former_id x k))) e)
        ]
  ]

  get-scan_vars :
      (id j : String) (b : Bytes) (vars : List (String × String)) (m : Former C)
      → IsPaired x id m
      → get j m.previous_raw ≡ some b
      → get j (scan_vars x id vars m).previous_raw ≡ some b
  unfolding scan_vars
  get-scan_vars id j b [] m h e = e
  get-scan_vars id j b (kv ∷ vars) m h e =
      get-scan_vars id j b vars (scan_var x id kv m) (scan_var-IsPaired x lawful id kv m h)
        (get-scan_var id j b kv m h e)

  get-old_former :
      (env : Env) (id old_hex : String) (old_raw : Bytes)
      → var "APP_KEK_OLD" env ≡ some old_hex
      → x.from_hex old_hex ≡ some old_raw
      → unwrap_or (var "APP_KEK_OLD_ID" env) "previous" ≢ id
      → get (unwrap_or (var "APP_KEK_OLD_ID" env) "previous") (old_former x env id).previous_raw
        ≡ some old_raw
  unfolding old_former
  get-old_former env id old_hex old_raw r s other =
      let old_id = unwrap_or (var "APP_KEK_OLD_ID" env) "previous" in
      rw (r, old_former, ==_of_ne old_id id other, s, try_former, pair_from_hex)
        (get-insert_self old_id old_raw [])

  -- With `APP_KEK` and, under another id, `APP_KEK_OLD` set to keys, the store is built; it resolves
  -- the current id to the first and the old id to the second, whatever else the environment holds. A
  -- key in hexadecimal has 32 bytes.
  pub from_env_rotates :
      (env : Env) (hex old_hex : String) (raw old_raw : Bytes)
      → var "APP_KEK" env ≡ some hex
      → x.from_hex hex ≡ some raw
      → var "APP_KEK_OLD" env ≡ some old_hex
      → x.from_hex old_hex ≡ some old_raw
      → unwrap_or (var "APP_KEK_OLD_ID" env) "previous" ≢ unwrap_or (var "APP_KEK_ID" env) "primary"
      → (st : KekStore C) × (from_env x env ≡ ok st)
        × (resolve_raw st (unwrap_or (var "APP_KEK_ID" env) "primary") ≡ some raw)
        × (resolve_raw st (unwrap_or (var "APP_KEK_OLD_ID" env) "previous") ≡ some old_raw)
  unfolding resolve_raw
  from_env_rotates env hex old_hex raw old_raw p q r s other =
      let id = unwrap_or (var "APP_KEK_ID" env) "primary" in
      let old_id = unwrap_or (var "APP_KEK_OLD_ID" env) "previous" in
      let kept =
        get-scan_vars id old_id old_raw env (old_former x env id)
          (old_former-IsPaired x lawful env id) (get-old_former env id old_hex old_raw r s other) in
      (
        store_of x env raw,
        from_env_lem x env hex raw p q,
        rw (eq_refl id),
        rw (==_of_ne old_id id other) (rw kept),
      )
