-- ===== src/App/Overlap/Signed.antt =====
-- What src/app.rs signs in one turn and verifies in another, while requests overlap.
use secret_management.Prelude.{
  Option, ℕ, ◌≡◌, refl, sym, ap, ◌∙◌, true, ◌==◌, some, List, [], ok, subst, some_inj,
}
use secret_management.Std.Map.{Env}
use secret_management.Http.{Response, ok_status}
use secret_management.Headers.{security_headers}
use secret_management.Crates.{Crates, IsLawful, SigningCrates, IsLawfulSigning}
use secret_management.Auth.{ApiKeyStore}
use secret_management.Services.Growth.{Grows}
use secret_management.Api.Dto.{SignDto, SignResponse}
use secret_management.Api.V1.Sign.{sign_v1}
use secret_management.Api.V1.Signatures.{verify_of, verify_v1-sign_v1}
use secret_management.App.{AppState, create_app}
use secret_management.App.Routes.{
  Route, post_sign_v1, post_verify_v1, Body, signed_v1, verified_v1, Axum, handle, into_response,
}
use secret_management.App.Serve.{Call}
use secret_management.App.Admitted.{into_response-eq-ok}
use secret_management.App.Sessions.{start, body_of-eq-ok, create_app-IsDerived}
use secret_management.App.Overlap.{Process, Turn, pick, finish, run}
use secret_management.App.Overlap.Kept.{run-Extends}

-- The process at its start, with no request.
abbrev pub idle : {B C K R : Type 0} → AppState C K R → ℕ → Process B C K R
idle app i = record { world = start app i; waiting = [] }

module _ {B C D K R : Type 0} (ax : Axum B) (x : Crates C D) (s : SigningCrates K R)
    (keys : ApiKeyStore) (max : ℕ) where
  -- The request at a place of `waiting` is a POST to a route.
  pub record IsWaiting (p : Process B C K R) (n : ℕ) (route : Route) (c : Call B) : Type 0 where
    pub others : List (Option Route × Call B)
    pub found : pick n p.waiting ≡ some ((some route, c), others)
    pub posted : (c.method == "POST") ≡ true

  module _ (p : Process B C K R) (n : ℕ) (route : Route) (c : Call B)
      (h : IsWaiting p n route c) where
    pub finish-answer :
        (finish ax x s keys max n p).0
        ≡ some (
            security_headers
              (into_response ax (handle ax x s route p.world.app c.content p.world.draws).0))
    unfolding finish
    finish-answer = rw (h.found, finish, h.posted) refl

    finish-app :
        (finish ax x s keys max n p).1.world.app
        ≡ (handle ax x s route p.world.app c.content p.world.draws).1
    unfolding finish
    finish-app = rw (h.found, finish, h.posted) refl

    pub finish-drawn :
        (finish ax x s keys max n p).1.world.draws
        ≡ (handle ax x s route p.world.app c.content p.world.draws).2
    unfolding finish
    finish-drawn = rw (h.found, finish, h.posted) refl

  signed_of :
      (p : Process B C K R) (n : ℕ) (c : Call B) (d : SignDto) (answer : Response Body)
      (resp : SignResponse)
      → IsWaiting p n post_sign_v1 c
      → ax.json_sign_v1 c.content ≡ ok d
      → (finish ax x s keys max n p).0 ≡ some answer
      → answer.body ≡ signed_v1 resp
      → ((sign_v1 x s p.world.app.key_service d p.world.draws).0 ≡ ok resp)
        × ((finish ax x s keys max n p).1.world.app.key_service
            ≡ (sign_v1 x s p.world.app.key_service d p.world.draws).1)
  unfolding handle security_headers
  signed_of p n c d answer resp h parsed e b =
      let same = some_inj (sym (finish-answer p n post_sign_v1 c h) ∙ e) in
      let done =
        into_response-eq-ok ax x s keys max
          (handle ax x s post_sign_v1 p.world.app c.content p.world.draws).0 (signed_v1 resp)
          (λ text. cc) (ap (λ (r : Response Body). r.body) same ∙ b) in
      let (r, made, said) =
        body_of-eq-ok signed_v1 (sign_v1 x s p.world.app.key_service d p.world.draws).0
          (signed_v1 resp) (rw (parsed, handle) at done) in
      (
        made ∙ cc said,
        ap (λ (app : AppState C K R). app.key_service) (finish-app p n post_sign_v1 c h)
            ∙ rw (parsed, handle) refl,
      )

  -- With crates that keep their laws, and whatever requests overlap since the start: what a request to
  -- /v1/crypto/sign was signed is verified with status 200 by every request to /v1/crypto/verify that
  -- sends it back with the same tenant, policy, classification and content and whose handler runs
  -- later, with any turns of the process in between.
  pub overlapping_signed_is_verified :
      IsLawful x
      → IsLawfulSigning s
      → (env : Env) (app : AppState C K R) (i : ℕ) (ts ts' : List (Turn B)) (p p' : Process B C K R)
        (n n' : ℕ) (c c' : Call B) (d : SignDto) (answer : Response Body) (resp : SignResponse)
      → create_app x env ≡ ok app
      → run ax x s keys max ts (idle app i) ≡ p
      → IsWaiting p n post_sign_v1 c
      → ax.json_sign_v1 c.content ≡ ok d
      → (finish ax x s keys max n p).0 ≡ some answer
      → answer.body ≡ signed_v1 resp
      → run ax x s keys max ts' (finish ax x s keys max n p).1 ≡ p'
      → IsWaiting p' n' post_verify_v1 c'
      → ax.json_verify_v1 c'.content ≡ ok (verify_of d resp)
      → (answer' : Response Body) × ((finish ax x s keys max n' p').0 ≡ some answer')
        × (answer'.status ≡ ok_status)
        × (answer'.body ≡ verified_v1 (record { valid = true }))
  unfolding handle security_headers into_response
  overlapping_signed_is_verified lawful signing env app i ts ts' p p' n n' c c' d answer resp
        started before h sent e b after h' asked =
      let (made, kept) = signed_of p n c d answer resp h sent e b in
      let since : Grows s app.key_service p.world.app.key_service =
        subst (λ (q : Process B C K R). Grows s app.key_service q.world.app.key_service) before
          (run-Extends ax x s keys max ts (idle app i)).grows in
      let derived = since.derived_kept (create_app-IsDerived ax x s keys max env app started) in
      let grown =
        subst
          (λ (q : Process B C K R).
            Grows s (finish ax x s keys max n p).1.world.app.key_service q.world.app.key_service)
          after (run-Extends ax x s keys max ts' (finish ax x s keys max n p).1).grows in
      let valid =
        verify_v1-sign_v1 x s lawful signing p.world.app.key_service
          (sign_v1 x s p.world.app.key_service d p.world.draws).1 p'.world.app.key_service d
          p.world.draws (sign_v1 x s p.world.app.key_service d p.world.draws).2 p'.world.draws resp
          derived
          (ap
            (λ r. (
              r,
              (sign_v1 x s p.world.app.key_service d p.world.draws).1,
              (sign_v1 x s p.world.app.key_service d p.world.draws).2,
            ))
            made)
          (subst (λ ks. Grows s ks p'.world.app.key_service) kept grown) in
      let done = finish-answer p' n' post_verify_v1 c' h' in
      (_, done, rw (asked, handle, valid) refl, rw (asked, handle, valid) refl)
