-- ===== src/App/Steps.antt =====
-- The process of src/app.rs over time: requests, and the rounds of the task that
-- src/middleware/rate_limit.rs starts, in any order.
use secret_management.Prelude.{
  Option, none, some, ℕ, ◌≡◌, refl, sym, ap, ◌∙◌, ok, err, inl, inr, subst, Bool-cases, Result,
  ◌==◌,
}
use secret_management.Std.Map.{IsDistinct}
use secret_management.Crates.{Crates, SigningCrates}
use secret_management.Auth.{ApiKeyStore}
use secret_management.RateLimit.{bucket_key, sweep}
use secret_management.RateLimit.Sweep.{check-IsDistinct, sweep-IsDistinct}
use secret_management.Services.Growth.{Grows, Grows-refl, Grows-trans}
use secret_management.Api.V1.Signatures.{sign_v1-Grows, verify_v1-Grows}
use secret_management.Http.{Response}
use secret_management.Api.Models.{Failure}
use secret_management.App.{AppState}
use secret_management.App.Routes.{
  Route, route_of, post_encrypt, post_decrypt, post_encrypt_v1, post_decrypt_v1, post_sign_v1,
  post_verify_v1, post_hash_v1, Body, Axum, handle, Handled, extracted,
}
use secret_management.App.Serve.{Call, World, post, endpoint, serve}
use secret_management.App.Answers.{serve-Served, unauthorised, over_limit, admitted}

module _ {B C D K R : Type 0} (ax : Axum B) (x : Crates C D) (s : SigningCrates K R)
    (keys : ApiKeyStore) (max : ℕ) where
  pub data Step : World C K R → World C K R → Type 0 where
    served : (w : World C K R) (c : Call B) → Step w (serve ax x s keys max w c).1
    swept : (w : World C K R) (now : ℕ) → Step w (record w { clients = sweep now w.clients })

  pub data Reach (v : World C K R) : World C K R → Type 0 where
    here : Reach v v
    next : {w u : World C K R} → Reach v w → Step w u → Reach v u

-- A later state: the key store and the stores of the tenants are the same, no cached key is lost or
-- replaced, and the clients of the rate limit keep one entry for each bucket.
pub record Extends {C K R : Type 0} (s : SigningCrates K R) (v w : World C K R) : Type 0 where
  pub same_store : w.app.kek_store ≡ v.app.kek_store
  pub grows : Grows s v.app.key_service w.app.key_service
  pub one_entry : IsDistinct v.clients → IsDistinct w.clients

module _ {C K R : Type 0} (s : SigningCrates K R) where
  pub Extends-refl : (w : World C K R) → Extends s w w
  Extends-refl w = record {
    same_store = refl;
    grows = Grows-refl s w.app.key_service;
    one_entry = λ h. h;
  }

  pub Extends-trans : {u v w : World C K R} → Extends s u v → Extends s v w → Extends s u w
  Extends-trans g h = record {
    same_store = h.same_store ∙ g.same_store;
    grows = Grows-trans s g.grows h.grows;
    one_entry = λ d. h.one_entry (g.one_entry d);
  }

  -- What a handler does to the shared state.
  abbrev Later : AppState C K R → AppState C K R → Type 0
  Later a b = (b.kek_store ≡ a.kek_store) × Grows s a.key_service b.key_service

  Later-refl : (a : AppState C K R) → Later a a
  Later-refl a = (refl, Grows-refl s a.key_service)

  extracted-Later :
      {A : Type 0} (a : AppState C K R) (i : ℕ) (r : Result Failure A) (f : A → Handled C K R)
      → ((req : A) → Later a (f req).1)
      → Later a (extracted a i r f).1
  extracted-Later a i (ok req) f h = h req
  extracted-Later a i (err e) f h = Later-refl a

module _ {B C D K R : Type 0} (ax : Axum B) (x : Crates C D) (s : SigningCrates K R) where
  handle-Later :
      (route : Route) (a : AppState C K R) (b : B) (i : ℕ) → Later s a (handle ax x s route a b i).1
  unfolding handle
  handle-Later post_encrypt a b i =
      extracted-Later s a i (ax.json_encrypt b) _ (λ req. Later-refl s a)
  handle-Later post_decrypt a b i =
      extracted-Later s a i (ax.json_decrypt b) _ (λ req. Later-refl s a)
  handle-Later post_encrypt_v1 a b i =
      extracted-Later s a i (ax.json_encrypt_v1 b) _ (λ d. Later-refl s a)
  handle-Later post_decrypt_v1 a b i =
      extracted-Later s a i (ax.json_decrypt_v1 b) _ (λ d. Later-refl s a)
  handle-Later post_sign_v1 a b i =
      extracted-Later s a i (ax.json_sign_v1 b) _ (λ d. (refl, sign_v1-Grows x s a.key_service d i))
  handle-Later post_verify_v1 a b i =
      extracted-Later s a i (ax.json_verify_v1 b) _
        (λ d. (refl, verify_v1-Grows x s a.key_service d i))
  handle-Later post_hash_v1 a b i =
      extracted-Later s a i (ax.json_hash_v1 b) _ (λ d. Later-refl s a)

  post-Later :
      (route : Route) (w : World C K R) (c : Call B) → Later s w.app (post ax x s route w c).1
  post-Later route w c = elim (Bool-cases (c.method == "POST")) [
    | inl p ↦ rw p (handle-Later route w.app c.content w.draws)
    | inr p ↦ rw p (Later-refl s w.app)
  ]

  pub endpoint-Later :
      (target : Option Route) (w : World C K R) (c : Call B)
      → Later s w.app (endpoint ax x s target w c).1
  endpoint-Later none w c = Later-refl s w.app
  endpoint-Later (some route) w c = post-Later route w c

  module _ (keys : ApiKeyStore) (max : ℕ) where
    pub serve-Extends : (w : World C K R) (c : Call B) → Extends s w (serve ax x s keys max w c).1
    serve-Extends w c =
        let to_world =
          λ (v : World C K R) (p : (serve ax x s keys max w c).1 ≡ v) (h : Extends s w v).
            subst (Extends s w) (sym p) h in
        elim (serve-Served ax x s keys max w c) [
          | unauthorised status p q ↦
              to_world w (ap (λ (r : Response Body × World C K R). r.1) q) (Extends-refl s w)
          | over_limit role q r t ↦
              to_world _ (ap (λ (r : Response Body × World C K R). r.1) t) (record {
                same_store = refl;
                grows = Grows-refl s w.app.key_service;
                one_entry = check-IsDistinct max w.clients (bucket_key c.request) c.opened c.now;
              })
          | admitted role q r t ↦
              to_world _ (ap (λ (r : Response Body × World C K R). r.1) t) (record {
                same_store = (endpoint-Later (route_of c.request.path) w c).0;
                grows = (endpoint-Later (route_of c.request.path) w c).1;
                one_entry = check-IsDistinct max w.clients (bucket_key c.request) c.opened c.now;
              })
        ]

    Step-Extends : {v w : World C K R} → Step ax x s keys max v w → Extends s v w
    Step-Extends (served w c) = serve-Extends w c
    Step-Extends (swept w now) = record {
      same_store = refl;
      grows = Grows-refl s w.app.key_service;
      one_entry = λ h. sweep-IsDistinct now w.clients h;
    }

    -- After every sequence of requests and rounds of the background task, in any order: the key
    -- store and the stores of the tenants are those of the start, every RSA key that was cached is
    -- cached still, Ed25519 keys are those derived from the tenants if they were at the start, and
    -- the rate limit has one entry for each bucket if it had.
    pub Reach-Extends : {v w : World C K R} → Reach ax x s keys max v w → Extends s v w
    Reach-Extends {v = v} here = Extends-refl s v
    Reach-Extends (next r st) = Extends-trans s (Reach-Extends r) (Step-Extends st)
