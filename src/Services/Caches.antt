-- ===== src/Services/Caches.antt =====
-- The caches of src/services/key_service.rs: a tenant keeps its signing keys.
use secret_management.Prelude.{ℕ, String, ◌≡◌, List, [], ◌∷◌, ok}
use secret_management.Std.Map.{Env}
use secret_management.Crates.{Crates, SigningCrates}
use secret_management.Services.KeyService.{
  KeyService, add_tenants, default_store, derived_key, ed25519_key, rsa_key, service_of,
}
use secret_management.Services.KeyService
use secret_management.Services.Growth.{
  ed25519_key-IsDerived, fresh-IsDerived, rsa_key-cached, rsa_key-hit, Grows, Grows-refl,
  Grows-trans, ed25519_key-Grows, rsa_key-Grows,
}

-- A call of one of the two functions, for a tenant.
pub data Call : Type 0 where
  ed25519 rsa : String → Call

module _ {C K R : Type 0} (s : SigningCrates K R) where
  -- The calls in turn, with the draws of key pairs.
  unfoldable pub run : List Call → KeyService C K R → ℕ → KeyService C K R × ℕ
  run [] ks i = (ks, i)
  run (ed25519 t ∷ calls) ks i = run calls (ed25519_key s ks t).1 i
  run (rsa t ∷ calls) ks i = let (_, ks', j) = rsa_key s ks t i in run calls ks' j

  run-Grows : (calls : List Call) (ks : KeyService C K R) (i : ℕ) → Grows s ks (run calls ks i).0
  unfolding run
  run-Grows [] ks i = Grows-refl s ks
  run-Grows (ed25519 t ∷ calls) ks i =
      Grows-trans s (ed25519_key-Grows s ks t) (run-Grows calls (ed25519_key s ks t).1 i)
  run-Grows (rsa t ∷ calls) ks i =
      Grows-trans s (rsa_key-Grows s ks t i)
        (run-Grows calls (rsa_key s ks t i).1 (rsa_key s ks t i).2)

  -- In a service from the environment the Ed25519 key of a tenant is the one derived from the
  -- tenant's name, whatever keys were asked for before.
  pub ed25519_key-eq-derived :
      {D : Type 0} (x : Crates C D) (env : Env) (ks : KeyService C K R)
      → KeyService.from_env x env ≡ ok ks
      → (calls : List Call) (i : ℕ) (t : String)
      → (ed25519_key s (run calls ks i).0 t).0 ≡ derived_key s t
  ed25519_key-eq-derived x env ks e calls i t =
      (ed25519_key-IsDerived s (run calls ks i).0 t
        ((run-Grows calls ks i).derived_kept (fresh-IsDerived s x env ks e))).0

  -- The RSA key that a tenant was given once is given again, and no new one is drawn, whatever keys
  -- are asked for in between.
  pub rsa_key-run :
      (ks : KeyService C K R) (t : String) (i j : ℕ) (calls : List Call)
      → rsa_key s (run calls (rsa_key s ks t i).1 (rsa_key s ks t i).2).0 t j
        ≡ ((rsa_key s ks t i).0, (run calls (rsa_key s ks t i).1 (rsa_key s ks t i).2).0, j)
  rsa_key-run ks t i j calls =
      let (key, ks', k) = rsa_key s ks t i in
      rsa_key-hit s (run calls ks' k).0 t j key
        ((run-Grows calls ks' k).rsa_kept t key (rsa_key-cached s ks t i))
