-- ===== src/App/Schemas/Kept.antt =====
-- Every answer of the process is one that src/api declares for its route.
use secret_management.Prelude.{
  Option, ℕ, eqb, ◌≡◌, refl, sym, inl, inr, true, ◌==◌, Bool-cases, some, List, [], ◌∷◌, ◌++◌,
  Result, ok, err, Fails, Fails-imp, subst,
}
use secret_management.Http.{Response, StatusCode, too_many_requests}
use secret_management.Crates.{Crates, SigningCrates}
use secret_management.Auth.{ApiKeyStore}
use secret_management.Auth.Access.{Refusal, require_api_key-Refusal}
use secret_management.Headers.{security_headers}
use secret_management.Api.Models.{Failure}
use secret_management.Api.Statuses.{encrypt_handler-Fails, decrypt_handler-Fails}
use secret_management.Api.V1.Statuses.{IsBad, IsBadOrUnsigned, v1_statuses}
use secret_management.Api.Handlers.{encrypt_handler, decrypt_handler}
use secret_management.Api.V1.{encrypt_v1, decrypt_v1}
use secret_management.Api.V1.Sign.{sign_v1, verify_v1}
use secret_management.Api.V1.Hashes.{hash_v1}
use secret_management.App.{AppState}
use secret_management.App.Routes.{
  Route, post_encrypt, post_decrypt, post_encrypt_v1, post_decrypt_v1, post_sign_v1, post_verify_v1,
  post_hash_v1, route_of, Body, encrypted, decrypted, encrypted_v1, decrypted_v1, signed_v1,
  verified_v1, hashed_v1, Axum, Handled, body_of, extracted, handle, into_response, refusal,
}
use secret_management.App.Serve.{Call, World, post, endpoint, serve}
use secret_management.App.Answers.{serve-Served, unauthorised, over_limit, admitted}
use secret_management.App.Schemas.{
  has_schema, is_in, rejections, refusals, layer_refusals, IsRefusal, IsRejection, IsRejecting,
  IsResult, IsAnswer,
}

is_in-++ :
    (status : StatusCode) (codes others : List StatusCode)
    → is_in status codes ≡ true
    → is_in status (codes ++ others) ≡ true
unfolding is_in
is_in-++ status [] others h = cc
is_in-++ status (code ∷ codes) others h = elim (Bool-cases (eqb status code)) [
  | inl e ↦ rw e refl
  | inr e ↦ rw e (is_in-++ status codes others (rw e at h))
]

rejected : (route : Route) (f : Failure) → IsRejection f → IsRefusal route f
unfolding refusals
rejected post_encrypt f h = is_in-++ f.0 rejections (500 ∷ []) h
rejected post_sign_v1 f h = is_in-++ f.0 rejections (500 ∷ []) h
rejected post_decrypt f h = h
rejected post_encrypt_v1 f h = h
rejected post_decrypt_v1 f h = h
rejected post_verify_v1 f h = h
rejected post_hash_v1 f h = h

body_of-IsResult :
    {A : Type 0} (route : Route) (to_body : A → Body) (r : Result Failure A)
    → ((a : A) → has_schema route (to_body a) ≡ true)
    → Fails (IsRefusal route) r
    → IsResult route (body_of to_body r)
body_of-IsResult route to_body (ok a) h f = h a
body_of-IsResult route to_body (err e) h f = f

extracted-IsResult :
    {C K R A : Type 0} (route : Route) (app : AppState C K R) (i : ℕ) (r : Result Failure A)
    (f : A → Handled C K R)
    → Fails IsRejection r
    → ((a : A) → IsResult route (f a).0)
    → IsResult route (extracted app i r f).0
extracted-IsResult route app i (ok a) f h k = k a
extracted-IsResult route app i (err e) f h k = rejected route e h

bad_refused : (route : Route) (f : Failure) → IsBad f → IsRefusal route f
unfolding is_in
bad_refused route f h = rejected route f (rw h refl)

module _ {B C D K R : Type 0} (ax : Axum B) (x : Crates C D) (s : SigningCrates K R)
    (rejecting : IsRejecting ax) where
  handle-IsResult :
      (route : Route) (app : AppState C K R) (b : B) (i : ℕ)
      → IsResult route (handle ax x s route app b i).0
  unfolding handle has_schema refusals is_in
  handle-IsResult post_encrypt app b i =
      extracted-IsResult post_encrypt app i (ax.json_encrypt b) _ (rejecting.json_encrypt b) λ req.
        body_of-IsResult post_encrypt encrypted (encrypt_handler x app.kek_store req i).0
          (λ a. refl)
          (encrypt_handler-Fails (IsRefusal post_encrypt) (λ _. refl) (λ _. refl) x (λ _. refl)
            app.kek_store req i)
  handle-IsResult post_decrypt app b i =
      extracted-IsResult post_decrypt app i (ax.json_decrypt b) _ (rejecting.json_decrypt b) λ req.
        body_of-IsResult post_decrypt decrypted (decrypt_handler x app.kek_store req) (λ a. refl)
          (decrypt_handler-Fails (IsRefusal post_decrypt) (λ _. refl) (λ _. refl) x app.kek_store
            req)
  handle-IsResult post_encrypt_v1 app b i =
      extracted-IsResult post_encrypt_v1 app i (ax.json_encrypt_v1 b) _
        (rejecting.json_encrypt_v1 b)
        λ d.
          body_of-IsResult post_encrypt_v1 encrypted_v1 (encrypt_v1 x app.key_service d i).0
            (λ a. refl)
            (Fails-imp IsBad (IsRefusal post_encrypt_v1) _ (bad_refused post_encrypt_v1)
              ((v1_statuses x s ax.from_slice app.key_service i).0 d))
  handle-IsResult post_decrypt_v1 app b i =
      extracted-IsResult post_decrypt_v1 app i (ax.json_decrypt_v1 b) _
        (rejecting.json_decrypt_v1 b)
        λ d.
          body_of-IsResult post_decrypt_v1 decrypted_v1
            (decrypt_v1 x ax.from_slice app.key_service d) (λ a. refl)
            (Fails-imp IsBad (IsRefusal post_decrypt_v1) _ (bad_refused post_decrypt_v1)
              ((v1_statuses x s ax.from_slice app.key_service i).1 d))
  handle-IsResult post_sign_v1 app b i =
      extracted-IsResult post_sign_v1 app i (ax.json_sign_v1 b) _ (rejecting.json_sign_v1 b) λ d.
        body_of-IsResult post_sign_v1 signed_v1 (sign_v1 x s app.key_service d i).0 (λ a. refl)
          (Fails-imp (IsBadOrUnsigned d.policy) (IsRefusal post_sign_v1) _
            (λ f h. elim h [ inl e ↦ bad_refused post_sign_v1 f e | inr (e, _) ↦ rw e refl ])
            ((v1_statuses x s ax.from_slice app.key_service i).2 d))
  handle-IsResult post_verify_v1 app b i =
      extracted-IsResult post_verify_v1 app i (ax.json_verify_v1 b) _ (rejecting.json_verify_v1 b)
        λ d.
          body_of-IsResult post_verify_v1 verified_v1 (verify_v1 x s app.key_service d i).0
            (λ a. refl)
            (Fails-imp IsBad (IsRefusal post_verify_v1) _ (bad_refused post_verify_v1)
              ((v1_statuses x s ax.from_slice app.key_service i).3 d))
  handle-IsResult post_hash_v1 app b i =
      extracted-IsResult post_hash_v1 app i (ax.json_hash_v1 b) _ (rejecting.json_hash_v1 b) λ d.
        body_of-IsResult post_hash_v1 hashed_v1 (hash_v1 x s d) (λ a. refl)
          (Fails-imp IsBad (IsRefusal post_hash_v1) _ (bad_refused post_hash_v1)
            ((v1_statuses x s ax.from_slice app.key_service i).4 d))

  into_response-IsAnswer :
      (route : Route) (r : Result Failure Body)
      → IsResult route r
      → IsAnswer route (security_headers (into_response ax r))
  unfolding security_headers into_response
  into_response-IsAnswer route (ok b) h = inl (refl, h)
  into_response-IsAnswer route (err (status, text)) h = inr (inl (h, text, refl))

  post-IsAnswer :
      (route : Route) (w : World C K R) (c : Call B)
      → IsAnswer route (security_headers (post ax x s route w c).0)
  unfolding security_headers is_in
  post-IsAnswer route w c = elim (Bool-cases (c.method == "POST")) [
    | inl e ↦ rw e (into_response-IsAnswer route _ (handle-IsResult route w.app c.content w.draws))
    | inr e ↦ rw e (inr (inr (rw rejecting.method_status refl, rejecting.method_body)))
  ]

  refusal-IsAnswer :
      (route : Route) (status : StatusCode)
      → is_in status layer_refusals ≡ true
      → IsAnswer route (refusal ax status)
  unfolding refusal
  refusal-IsAnswer route status h = inr (inr (h, refl))

  pub Refusal-layer :
      (keys : ApiKeyStore) (c : Call B) (status : StatusCode)
      → Refusal keys c.request status
      → is_in status layer_refusals ≡ true
  unfolding is_in
  Refusal-layer keys c status (inl (e, _)) = rw e refl
  Refusal-layer keys c status (inr (inl (e, _))) = rw e refl
  Refusal-layer keys c status (inr (inr (role, e, _, _))) = rw e refl

  pub serve-IsAnswer :
      (keys : ApiKeyStore) (max : ℕ) (w : World C K R) (c : Call B) (route : Route)
      → route_of c.request.path ≡ some route
      → IsAnswer route (serve ax x s keys max w c).0
  unfolding is_in
  serve-IsAnswer keys max w c route found =
      let at_answer =
        λ (v : Response Body × World C K R) (e : serve ax x s keys max w c ≡ v)
            (h : IsAnswer route v.0).
          subst (λ (u : Response Body × World C K R). IsAnswer route u.0) (sym e) h in
      elim (serve-Served ax x s keys max w c) [
        | unauthorised status q e ↦ at_answer _ e (
            refusal-IsAnswer route status
              (Refusal-layer keys c status (require_api_key-Refusal keys c.request status q)))
        | over_limit role q r e ↦ at_answer _ e (refusal-IsAnswer route too_many_requests refl)
        | admitted role q r e ↦ at_answer _ e (
            subst
              (λ (t : Option Route). IsAnswer route (security_headers (endpoint ax x s t w c).0))
              (sym found) (post-IsAnswer route w c))
      ]
