-- ===== src/Services/Growth.antt =====
-- How the caches of src/services/key_service.rs grow: calls add keys, and change nothing else.
use secret_management.Prelude.{
  some_inj, ℕ, String, ◌≡◌, refl, sym, ap, ◌∙◌, some, [], ◌∷◌, ok, arith, Bool-cases, Option-cases,
  inl, inr, ◌==◌, eq_iff, ok_inj,
}
use secret_management.Std.Map.{HashMap, Env, get, get-insert, get-insert_self}
use secret_management.Kek.{KekStore}
use secret_management.Crates.{Crates, SigningCrates}
use secret_management.Services.KeyService.{
  KeyService, add_tenants, default_store, derived_key, ed25519_key, rsa_key, service_of,
}
use secret_management.Services.KeyService

fresh-service_of :
    {C D K R : Type 0} (x : Crates C D) (stores : HashMap (KekStore C)) (ks : KeyService C K R)
    → service_of x stores ≡ ok ks
    → ks.ed25519_cache ≡ []
unfolding service_of
fresh-service_of x [] ks e = cc
fresh-service_of {C = C} {K = K} {R = R} x (store ∷ stores) ks e =
    sym (ap (λ (k : KeyService C K R). k.ed25519_cache) (ok_inj e))

module _ {C K R : Type 0} (s : SigningCrates K R) where
  -- Every cached Ed25519 key is the one derived from the tenant.
  abbrev pub IsDerived : KeyService C K R → Type 0
  IsDerived ks = (t : String) (k : K) → get t ks.ed25519_cache ≡ some k → k ≡ derived_key s t

  pub ed25519_key-IsDerived :
      (ks : KeyService C K R) (t : String)
      → IsDerived ks
      → ((ed25519_key s ks t).0 ≡ derived_key s t) × IsDerived (ed25519_key s ks t).1
  unfolding ed25519_key
  ed25519_key-IsDerived ks t h = elim (Option-cases (get t ks.ed25519_cache)) [
    | inr (k, e) ↦ rw (e, ed25519_key) (h t k e, h)
    | inl e ↦
        rw (e, ed25519_key)
          (
            refl,
            λ u k p. elim (Bool-cases (t == u)) [
              | inl same ↦
                  sym (some_inj (rw (get-insert, same) at p))
                  ∙ ap (derived_key s) ((eq_iff t u).0 same)
              | inr other ↦ h u k (rw (get-insert, other) at p)
            ],
          )
  ]

  rsa_key-IsDerived :
      (ks : KeyService C K R) (t : String) (i : ℕ) → IsDerived ks → IsDerived (rsa_key s ks t i).1
  unfolding rsa_key
  rsa_key-IsDerived ks t i h = elim (Option-cases (get t ks.rsa_cache)) [
    | inr (k, e) ↦ rw (e, rsa_key) h
    | inl e ↦ rw (e, rsa_key) h
  ]

  pub fresh-IsDerived :
      {D : Type 0} (x : Crates C D) (env : Env) (ks : KeyService C K R)
      → KeyService.from_env x env ≡ ok ks
      → IsDerived ks
  unfolding KeyService.from_env get
  fresh-IsDerived x env ks e t k p =
      cc (p, fresh-service_of x (add_tenants x env env (default_store x env)) ks e)

  -- A cached RSA key stays.
  get-rsa_key :
      (ks : KeyService C K R) (t u : String) (i : ℕ) (k : R)
      → get u ks.rsa_cache ≡ some k
      → get u (rsa_key s ks t i).1.rsa_cache ≡ some k
  unfolding rsa_key
  get-rsa_key ks t u i k h = elim (Option-cases (get t ks.rsa_cache)) [
    | inr (l, e) ↦ rw (e, rsa_key) h
    | inl e ↦ rw (e, rsa_key) (rw get-insert (ground (arith, eq_iff t u)))
  ]

  get-ed25519_key :
      (ks : KeyService C K R) (t : String) → (ed25519_key s ks t).1.rsa_cache ≡ ks.rsa_cache
  unfolding ed25519_key
  get-ed25519_key ks t = elim (Option-cases (get t ks.ed25519_cache)) [
    | inr (l, e) ↦ rw (e, ed25519_key) refl
    | inl e ↦ rw (e, ed25519_key) refl
  ]

  pub rsa_key-cached :
      (ks : KeyService C K R) (t : String) (i : ℕ)
      → get t (rsa_key s ks t i).1.rsa_cache ≡ some (rsa_key s ks t i).0
  unfolding rsa_key
  rsa_key-cached ks t i = elim (Option-cases (get t ks.rsa_cache)) [
    | inr (l, e) ↦ rw (e, rsa_key) e
    | inl e ↦ rw (e, rsa_key) (get-insert_self t (s.rsa_new i) ks.rsa_cache)
  ]

  pub rsa_key-hit :
      (ks : KeyService C K R) (t : String) (i : ℕ) (k : R)
      → get t ks.rsa_cache ≡ some k
      → rsa_key s ks t i ≡ (k, ks, i)
  unfolding rsa_key
  rsa_key-hit ks t i k e = rw (e, rsa_key) refl

  -- A later state of a service.
  pub record Grows (ks ks' : KeyService C K R) : Type 0 where
    pub same_stores : ks'.stores ≡ ks.stores
    pub rsa_kept : (t : String) (k : R) → get t ks.rsa_cache ≡ some k → get t ks'.rsa_cache ≡ some k
    pub derived_kept : IsDerived ks → IsDerived ks'

  pub Grows-refl : (ks : KeyService C K R) → Grows ks ks
  Grows-refl ks = record { same_stores = refl; rsa_kept = λ t k e. e; derived_kept = λ h. h }

  pub Grows-trans : {a b c : KeyService C K R} → Grows a b → Grows b c → Grows a c
  Grows-trans g h = record {
    same_stores = h.same_stores ∙ g.same_stores;
    rsa_kept = λ t k e. h.rsa_kept t k (g.rsa_kept t k e);
    derived_kept = λ d. h.derived_kept (g.derived_kept d);
  }

  stores-ed25519_key :
      (ks : KeyService C K R) (t : String) → (ed25519_key s ks t).1.stores ≡ ks.stores
  unfolding ed25519_key
  stores-ed25519_key ks t = elim (Option-cases (get t ks.ed25519_cache)) [
    | inr (l, e) ↦ rw (e, ed25519_key) refl
    | inl e ↦ rw (e, ed25519_key) refl
  ]

  stores-rsa_key :
      (ks : KeyService C K R) (t : String) (i : ℕ) → (rsa_key s ks t i).1.stores ≡ ks.stores
  unfolding rsa_key
  stores-rsa_key ks t i = elim (Option-cases (get t ks.rsa_cache)) [
    | inr (l, e) ↦ rw (e, rsa_key) refl
    | inl e ↦ rw (e, rsa_key) refl
  ]

  pub ed25519_key-Grows : (ks : KeyService C K R) (t : String) → Grows ks (ed25519_key s ks t).1
  ed25519_key-Grows ks t = record {
    same_stores = stores-ed25519_key ks t;
    rsa_kept = λ u k e. ap (get u) (get-ed25519_key ks t) ∙ e;
    derived_kept = λ h. (ed25519_key-IsDerived ks t h).1;
  }

  pub rsa_key-Grows : (ks : KeyService C K R) (t : String) (i : ℕ) → Grows ks (rsa_key s ks t i).1
  rsa_key-Grows ks t i = record {
    same_stores = stores-rsa_key ks t i;
    rsa_kept = λ u k e. get-rsa_key ks t u i k e;
    derived_kept = λ h. rsa_key-IsDerived ks t i h;
  }
