-- ===== src/Kek/Invariant.antt =====
-- A store that src/crypto/kek_provider.rs builds is consistent: each cipher is that of the raw key
-- of the same id, each raw key has 32 bytes, and no former key hides behind the current id.
use secret_management.Prelude.{
  String, ◌||◌, ◌≡◌, refl, ◌≢◌, none, some, List, [], ◌∷◌, Bytes, arith, ◌==◌, eq_iff, map_some,
  length, ok, Option-cases, inl, inr, Bool-cases, unwrap_or, ok_inj, sym, ◌∙◌, subst,
}
use secret_management.Std.Map.{get, get-insert, contains_key, Env, var}
use secret_management.Crates.{Crates, IsLawful}
use secret_management.Kek.{KekStore, resolve, resolve_raw}
use secret_management.Kek.FromEnv.{
  Former, no_former, pair_from_hex, from_hex, try_former, old_former, is_former_key, former_id,
  scan_var, scan_vars, from_env,
}

module _ {C D : Type 0} (x : Crates C D) where
  abbrev pub store_of : Env → Bytes → KekStore C
  store_of env raw =
      let id = unwrap_or (var "APP_KEK_ID" env) "primary" in
      let former = scan_vars x id env (old_former x env id) in
      record {
        current_id = id;
        current = x.aes.new raw;
        current_raw = raw;
        previous = former.previous;
        previous_raw = former.previous_raw;
      }

  pub from_env_lem :
      (env : Env) (hex : String) (raw : Bytes)
      → var "APP_KEK" env ≡ some hex
      → x.from_hex hex ≡ some raw
      → from_env x env ≡ ok (store_of env raw)
  unfolding from_env
  from_env_lem env hex raw p q = rw (p, from_env, q, pair_from_hex)

  -- A store is built exactly if `APP_KEK` is set to a key in hexadecimal.
  pub from_env_inv :
      (env : Env) (st : KekStore C)
      → from_env x env ≡ ok st
      → (hex : String) × (raw : Bytes) × (var "APP_KEK" env ≡ some hex)
        × (x.from_hex hex ≡ some raw)
        × (store_of env raw ≡ st)
  unfolding from_env
  from_env_inv env st e = elim (Option-cases (var "APP_KEK" env)) [
    | inl unset ↦ cc (rw (unset, from_env) at e)
    | inr (hex, p) ↦ elim (Option-cases (x.from_hex hex)) [
      | inl bad ↦ cc (rw (p, from_env, bad, pair_from_hex) at e)
      | inr (raw, q) ↦ (hex, raw, p, q, ok_inj (sym (from_env_lem env hex raw p q) ∙ e))
    ]
  ]

  -- Of the two maps, with the id that they must not hold.
  pub record IsPaired (id : String) (m : Former C) : Type 0 where
    pub same_keys : (j : String) → get j m.previous ≡ map_some x.aes.new (get j m.previous_raw)
    pub not_current : get id m.previous_raw ≡ none
    pub full : (j : String) (b : Bytes) → get j m.previous_raw ≡ some b → length b ≡ 32

  pub record IsConsistent (st : KekStore C) : Type 0 where
    pub current_cipher : st.current ≡ x.aes.new st.current_raw
    pub current_full : length st.current_raw ≡ 32
    pub same_keys : (j : String) → get j st.previous ≡ map_some x.aes.new (get j st.previous_raw)
    pub not_current : get st.current_id st.previous_raw ≡ none
    pub full : (j : String) (b : Bytes) → get j st.previous_raw ≡ some b → length b ≡ 32

  module _ (lawful : IsLawful x) where
    pub try_former-IsPaired :
        (id j hex : String) (m : Former C)
        → j ≢ id
        → IsPaired id m
        → IsPaired id (try_former x j hex m)
    unfolding try_former
    try_former-IsPaired id j hex m other h = elim (Option-cases (x.from_hex hex)) [
      | inl e ↦ rw (e, try_former, pair_from_hex) h
      | inr (b, e) ↦
          rw (e, try_former, pair_from_hex)
            (record {
              same_keys = λ i. rw (get-insert, get-insert) (ground (arith, h.same_keys i));
              not_current = rw get-insert (ground (arith, eq_iff j id, h.not_current));
              full = λ i c p. ground (
                arith,
                get-insert j i b m.previous_raw,
                h.full i c,
                lawful.length-from_hex hex b,
              );
            })
    ]

    pub scan_var-IsPaired :
        (id : String) (kv : String × String) (m : Former C)
        → IsPaired id m
        → IsPaired id (scan_var x id kv m)
    unfolding scan_var
    scan_var-IsPaired id (k, v) m h = elim (Bool-cases (is_former_key k)) [
      | inr other ↦ rw (other, scan_var) h
      | inl former ↦
          elim (Bool-cases (former_id x k == id || contains_key (former_id x k) m.previous)) [
            | inl taken ↦ rw (former, taken, scan_var) h
            | inr free ↦
                rw (former, free, scan_var)
                  (try_former-IsPaired id (former_id x k) v m
                    (λ e. ground (arith, eq_iff (former_id x k) id)) h)
          ]
    ]

    pub scan_vars-IsPaired :
        (id : String) (vars : List (String × String)) (m : Former C)
        → IsPaired id m
        → IsPaired id (scan_vars x id vars m)
    unfolding scan_vars
    scan_vars-IsPaired id [] m h = h
    scan_vars-IsPaired id (kv ∷ vars) m h =
        scan_vars-IsPaired id vars (scan_var x id kv m) (scan_var-IsPaired id kv m h)

    no_former-IsPaired : (id : String) → IsPaired id no_former
    unfolding get
    no_former-IsPaired id = record { same_keys = λ j. refl; not_current = refl; full = λ j b e. cc }

    pub old_former-IsPaired : (env : Env) (id : String) → IsPaired id (old_former x env id)
    unfolding old_former
    old_former-IsPaired env id = elim (Option-cases (var "APP_KEK_OLD" env)) [
      | inl unset ↦ rw (unset, old_former) (no_former-IsPaired id)
      | inr (hex, e) ↦
          let old_id = unwrap_or (var "APP_KEK_OLD_ID" env) "previous" in
          elim (Bool-cases (old_id == id)) [
            | inl same ↦ rw (e, old_former, same) (no_former-IsPaired id)
            | inr other ↦
                rw (e, old_former, other)
                  (try_former-IsPaired id old_id hex no_former
                    (λ p. ground (arith, eq_iff old_id id)) (no_former-IsPaired id))
          ]
    ]

    -- A store that is built from the environment is consistent, if a key in hexadecimal has 32 bytes:
    -- the ciphers are those of the raw keys of the same ids, every key has 32 bytes, and the current
    -- id has no former key.
    pub from_env-IsConsistent :
        (env : Env) (st : KekStore C) → from_env x env ≡ ok st → IsConsistent st
    from_env-IsConsistent env st e =
        let (hex, raw, _, full, same) = from_env_inv env st e in
        let id = unwrap_or (var "APP_KEK_ID" env) "primary" in
        let paired = scan_vars-IsPaired id env (old_former x env id) (old_former-IsPaired env id) in
        subst IsConsistent same (record {
          current_cipher = refl;
          current_full = lawful.length-from_hex hex raw full;
          same_keys = paired.same_keys;
          not_current = paired.not_current;
          full = paired.full;
        })

    pub from_hex-IsConsistent :
        (id hex : String) (st : KekStore C) → from_hex x id hex ≡ ok st → IsConsistent st
    unfolding from_hex get
    from_hex-IsConsistent id hex st e = elim (Option-cases (x.from_hex hex)) [
      | inl bad ↦ cc (rw (bad, from_hex, pair_from_hex) at e)
      | inr (raw, full) ↦
          subst IsConsistent (ok_inj (rw (full, from_hex, pair_from_hex) at e)) (record {
            current_cipher = refl;
            current_full = lawful.length-from_hex hex raw full;
            same_keys = λ j. refl;
            not_current = refl;
            full = λ j b e. cc;
          })
    ]

  -- In a consistent store the cipher of an id is that of its raw key.
  pub resolve-eq-map :
      (st : KekStore C)
      → IsConsistent st
      → (id : String) → resolve st id ≡ map_some x.aes.new (resolve_raw st id)
  unfolding resolve resolve_raw
  resolve-eq-map st h id = ground (arith, h.current_cipher, h.same_keys id)

  pub length-resolve_raw :
      (st : KekStore C)
      → IsConsistent st
      → (id : String) (b : Bytes) → resolve_raw st id ≡ some b
      → length b ≡ 32
  unfolding resolve_raw
  length-resolve_raw st h id b e = ground (arith, h.current_full, h.full id b)
