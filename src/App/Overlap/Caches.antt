-- ===== src/App/Overlap/Caches.antt =====
-- The cache of Ed25519 keys of src/services/key_service.rs does not show in any answer.
use secret_management.Prelude.{
  ℕ, String, ◌≡◌, refl, sym, ap, ◌∙◌, Bool-cases, Option-cases, inl, inr, List, [], Bytes, Result,
  ok, err, ◌>>=◌, Bool, not, if◌then◌else◌,
}
use secret_management.Std.Map.{Env, get}
use secret_management.Http.{bad_request}
use secret_management.Crates.{Crates, SigningCrates}
use secret_management.Auth.{ApiKeyStore}
use secret_management.Services.KeyService.{KeyService, get_store, ed25519_key, rsa_key, derived_key}
use secret_management.Services.CryptoService.{store_for, encrypt, decrypt}
use secret_management.Services.Growth.{IsDerived, ed25519_key-IsDerived}
use secret_management.Api.Models.{Failure}
use secret_management.Api.Dto.{SignDto, SignResponse, VerifyDto, VerifyResponse}
use secret_management.Api.V1.{check_tenant, v1_payload, encrypt_v1, decrypt_v1}
use secret_management.Api.V1.Sign.{
  is_rsa, Signed, sign_message, sign_bytes, sign_response, sign_accepted, sign_v1, verify_message,
  verify_bytes, verify_accepted, verify_v1,
}
use secret_management.App.{AppState, create_app}
use secret_management.App.Routes.{
  Route, post_encrypt, post_decrypt, post_encrypt_v1, post_decrypt_v1, post_sign_v1, post_verify_v1,
  post_hash_v1, Body, signed_v1, verified_v1, body_of, Axum, Handled, extracted, handle,
}
use secret_management.App.Sessions.{create_app-IsDerived}
use secret_management.App.Overlap.{Turn, run}
use secret_management.App.Overlap.Kept.{run-Extends}
use secret_management.App.Overlap.Signed.{idle}

module _ {C K R : Type 0} where
  -- The registry with no cached Ed25519 key.
  abbrev pub uncached : KeyService C K R → KeyService C K R
  uncached ks = record ks { ed25519_cache = [] }

  -- What a computation gives, but for the caches that it leaves.
  abbrev seen : {A : Type 0} → Signed C K R A → A × ℕ
  seen (a, ks, i) = (a, i)

  abbrev pub forgotten : AppState C K R → AppState C K R
  forgotten app = record app { key_service = uncached app.key_service }

  -- The result of a handler, and the draws.
  abbrev pub outcome : Handled C K R → Result Failure Body × ℕ
  outcome (r, app, i) = (r, i)

module _ {C D K R : Type 0} (x : Crates C D) (s : SigningCrates K R) (ks : KeyService C K R)
    (derived : IsDerived s ks) (t policy : String) (i : ℕ) where
  fresh-derived : (ed25519_key s (uncached ks) t).0 ≡ derived_key s t
  unfolding ed25519_key get
  fresh-derived = refl

  same_key : (ed25519_key s ks t).0 ≡ (ed25519_key s (uncached ks) t).0
  same_key = (ed25519_key-IsDerived s ks t derived).0 ∙ sym fresh-derived

  sign_bytes-uncached :
      (msg : Bytes)
      → seen (sign_bytes s ks t policy msg i) ≡ seen (sign_bytes s (uncached ks) t policy msg i)
  unfolding sign_bytes rsa_key
  sign_bytes-uncached msg = elim (Bool-cases (is_rsa policy)) [
    | inl h ↦ elim (Option-cases (get t ks.rsa_cache)) [
      | inl e ↦ rw (h, e, rsa_key) refl
      | inr (key, e) ↦ rw (h, e, rsa_key) refl
    ]
    | inr h ↦ rw (h, same_key) refl
  ]

  verify_bytes-uncached :
      (msg sig : Bytes)
      → seen (verify_bytes s ks t policy msg sig i)
        ≡ seen (verify_bytes s (uncached ks) t policy msg sig i)
  unfolding verify_bytes rsa_key
  verify_bytes-uncached msg sig = elim (Bool-cases (is_rsa policy)) [
    | inl h ↦ elim (Option-cases (get t ks.rsa_cache)) [
      | inl e ↦ rw (h, e, rsa_key) refl
      | inr (key, e) ↦ rw (h, e, rsa_key) refl
    ]
    | inr h ↦ rw (h, same_key) refl
  ]

module _ {C D K R : Type 0} (x : Crates C D) (s : SigningCrates K R) (ks : KeyService C K R)
    (derived : IsDerived s ks) (i : ℕ) where
  sign_v1-uncached :
      (d : SignDto) → seen (sign_v1 x s ks d i) ≡ seen (sign_v1 x s (uncached ks) d i)
  unfolding sign_v1 sign_message check_tenant store_for get_store
  sign_v1-uncached d = of_message (sign_message x ks d)
    where
      answer_of : Result Failure Bytes × ℕ → Result Failure SignResponse × ℕ
      answer_of (r, j) = (r >>= (λ sig. ok (sign_response x s d.policy sig)), j)

      of_message :
          (r : Result Failure Bytes)
          → seen (sign_accepted x s ks d r i) ≡ seen (sign_accepted x s (uncached ks) d r i)
      of_message (ok msg) =
          ap answer_of (sign_bytes-uncached x s ks derived d.tenant_id d.policy i msg)
      of_message (err e) = refl

  verify_v1-uncached :
      (d : VerifyDto) → seen (verify_v1 x s ks d i) ≡ seen (verify_v1 x s (uncached ks) d i)
  unfolding verify_v1
  verify_v1-uncached d = of_message (verify_message x d)
    where
      answer_of : Bool × ℕ → Result Failure VerifyResponse × ℕ
      answer_of (valid, j) = (
        if not valid
            then err (bad_request, "Verification failed")
            else ok (record { valid = valid }),
        j,
      )

      of_message :
          (r : Result Failure (Bytes × Bytes))
          → seen (verify_accepted x s ks d r i) ≡ seen (verify_accepted x s (uncached ks) d r i)
      of_message (ok (msg, sig)) =
          ap answer_of (verify_bytes-uncached x s ks derived d.tenant_id d.policy i msg sig)
      of_message (err e) = refl

module _ {B C D K R : Type 0} (ax : Axum B) (x : Crates C D) (s : SigningCrates K R) where
  extracted-forgotten :
      {A : Type 0} (app : AppState C K R) (i : ℕ) (r : Result Failure A) (f g : A → Handled C K R)
      → ((a : A) → outcome (f a) ≡ outcome (g a))
      → outcome (extracted app i r f) ≡ outcome (extracted (forgotten app) i r g)
  extracted-forgotten app i (ok a) f g h = h a
  extracted-forgotten app i (err e) f g h = refl

  abbrev named : {A : Type 0} → (A → Body) → Result Failure A × ℕ → Result Failure Body × ℕ
  named to_body (r, i) = (body_of to_body r, i)

  handle-forgotten :
      (route : Route) (app : AppState C K R) (b : B) (i : ℕ)
      → IsDerived s app.key_service
      → outcome (handle ax x s route app b i) ≡ outcome (handle ax x s route (forgotten app) b i)
  unfolding handle encrypt_v1 v1_payload decrypt_v1 check_tenant store_for get_store encrypt decrypt
  handle-forgotten post_encrypt app b i h =
      extracted-forgotten app i (ax.json_encrypt b) _ _ (λ d. refl)
  handle-forgotten post_decrypt app b i h =
      extracted-forgotten app i (ax.json_decrypt b) _ _ (λ d. refl)
  handle-forgotten post_encrypt_v1 app b i h =
      extracted-forgotten app i (ax.json_encrypt_v1 b) _ _ (λ d. refl)
  handle-forgotten post_decrypt_v1 app b i h =
      extracted-forgotten app i (ax.json_decrypt_v1 b) _ _ (λ d. refl)
  handle-forgotten post_hash_v1 app b i h =
      extracted-forgotten app i (ax.json_hash_v1 b) _ _ (λ d. refl)
  handle-forgotten post_sign_v1 app b i h =
      extracted-forgotten app i (ax.json_sign_v1 b) _ _
        λ d. ap (named signed_v1) (sign_v1-uncached x s app.key_service h i d)
  handle-forgotten post_verify_v1 app b i h =
      extracted-forgotten app i (ax.json_verify_v1 b) _ _
        λ d. ap (named verified_v1) (verify_v1-uncached x s app.key_service h i d)

  -- The cache of Ed25519 keys never shows: after every run of the process since its start, with
  -- requests that overlap, every handler gives every request the result that it would give with that
  -- cache emptied, and makes the same draws.
  pub ed25519_cache_is_transparent :
      (keys : ApiKeyStore) (max : ℕ) (env : Env) (app : AppState C K R) (i : ℕ) (ts : List (Turn B))
      (route : Route) (b : B) (j : ℕ)
      → create_app x env ≡ ok app
      → outcome (handle ax x s route (run ax x s keys max ts (idle app i)).world.app b j)
        ≡ outcome
            (handle ax x s route (forgotten (run ax x s keys max ts (idle app i)).world.app) b j)
  ed25519_cache_is_transparent keys max env app i ts route b j started =
      handle-forgotten route (run ax x s keys max ts (idle app i)).world.app b j (
        (run-Extends ax x s keys max ts (idle app i)).grows.derived_kept
          (create_app-IsDerived ax x s keys max env app started))
